-- ===== src/Registration/Tests.antt =====
-- Registration with a concrete nginx, in which another module has been registered before.
use ngx_inference.Prelude.{
  ℕ, zero, suc, ◌≡◌, refl, List, [], ◌∷◌, ◌++◌, ◌==◌, if◌then◌else◌, Option, none, some, arith,
  length,
}
use ngx_inference.Text.{Bytes, bytes, to_ascii_lowercase, lower}
use ngx_inference.Nginx.{ngx_ok}
use ngx_inference.Registration.{
  inference_upstream_var_get, other_getter, PhaseHandler, inference_access_handler, other_handler,
  ngx_http_access_phase, set_handlers, HttpVariable, MainConf, Registry, Registers, write_at,
  get_elem?, attach_evaluator, preconfiguration, postconfiguration,
}
use ngx_inference.Registration.Started.{IsDefined, IsExtended, module-IsDefined}

abbrev new_variable : Bytes → HttpVariable
new_variable name = record { name = to_ascii_lowercase name; get_handler = none; data_word = 7 }

-- A new variable and a new slot go behind the others.
abbrev appending : Registry
appending = record {
  add_variable = λ name vs. (vs ++ (new_variable name ∷ []), some (length vs));
  array_push = λ hs. (hs ++ (none ∷ []), some (length hs));
}

found_last : {A : Type 0} (xs : List A) (x : A) → get_elem? (xs ++ (x ∷ [])) (length xs) ≡ some x
found_last [] x = refl
found_last (y ∷ xs) x = found_last xs x

found_before :
    {A : Type 0} (xs ys : List A) (j : ℕ) (x : A)
    → get_elem? xs j ≡ some x
    → get_elem? (xs ++ ys) j ≡ some x
found_before [] ys j x h = ground arith
found_before (y ∷ xs) ys zero x h = h
found_before (y ∷ xs) ys (suc j) x h = found_before xs ys j x h

appending-Registers : Registers appending
appending-Registers = record {
  added = λ name vs vs' i e.
      (new_variable name, ground (arith, e, found_last vs (new_variable name)), refl);
  stays = λ name vs j v h differs. found_before vs _ j v h;
  pushed = λ hs hs' i e. ground (arith, e);
  not_pushed = λ hs hs' e. ground (arith, e);
}

abbrev handlers : List (Option PhaseHandler) → ℕ → List (Option PhaseHandler)
handlers access p = if p == ngx_http_access_phase then access else some (other_handler 2) ∷ []

abbrev configured : MainConf
configured = record {
  variables =
      record { name = bytes "host"; get_handler = some (other_getter 1); data_word = 3 } ∷ [];
  phases = handlers (some (other_handler 1) ∷ []);
}

abbrev defined : MainConf
defined = record {
  variables =
      record { name = bytes "host"; get_handler = some (other_getter 1); data_word = 3 }
      ∷ record {
        name = bytes "inference_upstream";
        get_handler = some inference_upstream_var_get;
        data_word = 0;
      }
      ∷ [];
  phases = handlers (some (other_handler 1) ∷ []);
}

abbrev started : MainConf
started = record defined {
  phases =
      set_handlers ngx_http_access_phase
        (some (other_handler 1) ∷ some inference_access_handler ∷ []) defined.phases;
}

module-IsDefined_example :
    IsDefined configured.variables started.variables
    × IsExtended ngx_ok configured.phases started.phases
unfolding preconfiguration postconfiguration write_at attach_evaluator to_ascii_lowercase lower
module-IsDefined_example =
    module-IsDefined appending appending-Registers configured defined started ngx_ok refl refl
