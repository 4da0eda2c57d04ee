-- ===== src/Registration/Started.antt =====
-- What nginx holds after the module has been registered (src/lib.rs).
use ngx_inference.Prelude.{
  ℕ, zero, suc, ◌≡◌, ◌≢◌, refl, sym, ◌∙◌, ap, List, [], ◌∷◌, ◌++◌, Option, none, some, arith,
  length, ◌⊎◌, inl, inr, Option-cases,
}
use mathlib.Core.Path.{subst}
use ngx_inference.Text.{Bytes, bytes, to_ascii_lowercase, lower}
use ngx_inference.Nginx.{Status, ngx_ok, ngx_error}
use ngx_inference.Registration.{
  inference_upstream_var_get, PhaseHandler, inference_access_handler, ngx_http_access_phase,
  set_handlers, HttpVariable, MainConf, Registry, Registers, write_at, get_elem?, attach_evaluator,
  preconfiguration, postconfiguration,
}

written_there :
    {A : Type 0} (f : A → A) (i : ℕ) (xs : List A) (x : A)
    → get_elem? xs i ≡ some x
    → get_elem? (write_at i f xs) i ≡ some (f x)
unfolding write_at
written_there f i [] x h = ground arith
written_there f zero (y ∷ xs) x h = ap (λ o. elim o [ some z ↦ some (f z) | none ↦ none ]) h
written_there f (suc i) (y ∷ xs) x h = written_there f i xs x h

written_elsewhere :
    {A : Type 0} (f : A → A) (i j : ℕ) (xs : List A)
    → j ≢ i
    → get_elem? (write_at i f xs) j ≡ get_elem? xs j
unfolding write_at
written_elsewhere f i j [] h = refl
written_elsewhere f zero zero (x ∷ xs) h = ground arith
written_elsewhere f zero (suc j) (x ∷ xs) h = refl
written_elsewhere f (suc i) zero (x ∷ xs) h = refl
written_elsewhere f (suc i) (suc j) (x ∷ xs) h =
    written_elsewhere f i j xs (λ e. h (ap (λ n. suc n) e))

written_last :
    {A : Type 0} (f : A → A) (xs : List A) (x : A)
    → write_at (length xs) f (xs ++ (x ∷ [])) ≡ xs ++ (f x ∷ [])
unfolding write_at
written_last f [] x = refl
written_last f (y ∷ xs) x = ap (λ ys. y ∷ ys) (written_last f xs x)

same_name :
    (vs : List HttpVariable) (v w : HttpVariable) (i j : ℕ)
    → get_elem? vs i ≡ some v
    → get_elem? vs j ≡ some w
    → j ≡ i
    → w.name ≡ v.name
same_name vs v w i j p q same = cc

abbrev pub upstream_name : Bytes
upstream_name = bytes "inference_upstream"

-- The variable is there with its evaluator, and the variables of other names are as they were.
pub record IsDefined (vs vs' : List HttpVariable) : Type 0 where
  pub place : ℕ
  pub variable : HttpVariable
  pub found : get_elem? vs' place ≡ some variable
  pub named : variable.name ≡ upstream_name
  pub evaluated : variable.get_handler ≡ some inference_upstream_var_get
  pub others :
      (j : ℕ) (v : HttpVariable)
      → get_elem? vs j ≡ some v
      → v.name ≢ upstream_name
      → get_elem? vs' j ≡ some v

-- The access phase has one handler more, or, after an error, none; the other phases are as they were.
pub record IsExtended (s : Status) (phases phases' : ℕ → List (Option PhaseHandler)) : Type 0 where
  pub others : (p : ℕ) → p ≢ ngx_http_access_phase → phases' p ≡ phases p
  pub access :
      (s ≡ ngx_ok)
        × (phases' ngx_http_access_phase
            ≡ phases ngx_http_access_phase ++ (some inference_access_handler ∷ []))
      ⊎ (s ≡ ngx_error) × (phases' ngx_http_access_phase ≡ phases ngx_http_access_phase)

module _ (reg : Registry) (nginx : Registers reg) (c : MainConf) where
  defines :
      (c' : MainConf)
      → preconfiguration reg c ≡ (c', ngx_ok)
      → IsDefined c.variables c'.variables × (c'.phases ≡ c.phases)
  unfolding preconfiguration attach_evaluator to_ascii_lowercase lower
  defines c' e = elim (Option-cases (reg.add_variable upstream_name c.variables).1) [
    | inl null ↦ absurd (ground (arith, e, null))
    | inr (i, there) ↦
        let vs = (reg.add_variable upstream_name c.variables).0 in
        let (v, found, named) =
          nginx.added upstream_name c.variables vs i (ground (arith, there)) in
        let written : c'.variables ≡ write_at i attach_evaluator vs = ground (arith, e, there) in
        (
          record {
            place = i;
            variable = attach_evaluator v;
            found = ap (λ xs. get_elem? xs i) written ∙ written_there attach_evaluator i vs v found;
            named = named;
            evaluated = refl;
            others = λ j w h differs.
                ap (λ xs. get_elem? xs j) written
                ∙ written_elsewhere attach_evaluator i j vs (λ same. differs (
                    same_name vs v w i j found (nginx.stays upstream_name c.variables j w h differs)
                      same
                    ∙ named))
                ∙ nginx.stays upstream_name c.variables j w h differs;
          },
          ground (arith, e, there),
        )
  ]

  extends :
      (c c' : MainConf) (s : Status)
      → postconfiguration reg (some c) ≡ some (c', s)
      → (c'.variables ≡ c.variables) × IsExtended s c.phases c'.phases
  unfolding postconfiguration
  extends c c' s e = elim (Option-cases (reg.array_push (c.phases ngx_http_access_phase)).1) [
    | inl null ↦
        let same =
          nginx.not_pushed (c.phases ngx_http_access_phase)
            (reg.array_push (c.phases ngx_http_access_phase)).0 (ground (arith, null)) in
        let written : c'.phases
            ≡ set_handlers ngx_http_access_phase (reg.array_push (c.phases ngx_http_access_phase)).0
                c.phases =
          ground (arith, e, null) in
        (
          ground (arith, e, null),
          record {
            others = λ p differs. ap (λ ps. ps p) written ∙ ground arith;
            access =
                inr (ground (arith, e, null), ap (λ ps. ps ngx_http_access_phase) written ∙ same);
          },
        )
    | inr (i, there) ↦
        let hs = (reg.array_push (c.phases ngx_http_access_phase)).0 in
        let (place, pushed) =
          nginx.pushed (c.phases ngx_http_access_phase) hs i (ground (arith, there)) in
        let written : c'.phases
            ≡ set_handlers ngx_http_access_phase
                (write_at i (λ _. some inference_access_handler) hs) c.phases =
          ground (arith, e, there) in
        (
          ground (arith, e, there),
          record {
            others = λ p differs. ap (λ ps. ps p) written ∙ ground arith;
            access = inl (
              ground (arith, e, there),
              ap (λ ps. ps ngx_http_access_phase) written
                  ∙ ap (λ n. write_at n (λ _. some inference_access_handler) hs) place
                  ∙ ap
                      (write_at (length (c.phases ngx_http_access_phase))
                        (λ _. some inference_access_handler))
                      pushed
                  ∙ written_last (λ _. some inference_access_handler)
                      (c.phases ngx_http_access_phase) none,
            );
          },
        )
  ]

  -- With nginx's functions as it has them: after `preconfiguration` has returned NGX_OK and
  -- `postconfiguration` has returned, the variable $inference_upstream is defined and evaluated by the
  -- module, and every variable of another name that was there is as it was; the handlers of
  -- the access phase are those of before and then the module's where `postconfiguration`
  -- returned NGX_OK, and those of before where it returned NGX_ERROR, and it returns nothing
  -- else; and the handlers of every other phase are as they were.
  pub module-IsDefined :
      (c' c'' : MainConf) (s : Status)
      → preconfiguration reg c ≡ (c', ngx_ok)
      → postconfiguration reg (some c') ≡ some (c'', s)
      → IsDefined c.variables c''.variables × IsExtended s c.phases c''.phases
  module-IsDefined c' c'' s e f =
      let (defined, same) = defines c' e in
      let (kept, extended) = extends c' c'' s f in
      (
        subst (IsDefined c.variables) (sym kept) defined,
        subst (λ ps. IsExtended s ps c''.phases) same extended,
      )
