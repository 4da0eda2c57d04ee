-- ===== src/Registration.antt =====
-- The registration of the module with nginx (src/lib.rs): `preconfiguration`, which defines the variable,
-- and `postconfiguration`, which adds the handler of the access phase.
pub mod Started
mod Tests
use ngx_inference.Prelude.{
  ℕ, zero, suc, ◌≡◌, ◌≢◌, refl, sym, ◌∙◌, ap, List, [], ◌∷◌, ◌++◌, Option, none, some, arith,
  length, ◌==◌, if◌then◌else◌,
}
use ngx_inference.Text.{Bytes, bytes, to_ascii_lowercase}
use ngx_inference.Nginx.{Status, ngx_ok, ngx_error}

-- The functions that nginx is given pointers to; those of other modules have a number.
pub data Getter : Type 0 where
  inference_upstream_var_get : Getter
  other_getter : ℕ → Getter

pub data PhaseHandler : Type 0 where
  inference_access_handler : PhaseHandler
  other_handler : ℕ → PhaseHandler

-- `ngx_http_variable_t`.
pub record HttpVariable : Type 0 where
  pub name : Bytes
  pub get_handler : Option Getter
  pub data_word : ℕ  -- `data`

-- `NGX_HTTP_ACCESS_PHASE` of nginx's `ngx_http_phases`.
abbrev pub ngx_http_access_phase : ℕ
ngx_http_access_phase = 6

-- The variables, and the array `handlers` of each phase by the phase's number, where a `none` has
-- not been written.
pub record MainConf : Type 0 where
  pub variables : List HttpVariable
  pub phases : ℕ → List (Option PhaseHandler)

-- The handlers of one phase replaced.
abbrev pub set_handlers :
    ℕ
    → List (Option PhaseHandler)
    → (ℕ → List (Option PhaseHandler))
    → ℕ
    → List (Option PhaseHandler)
set_handlers phase hs phases p = if p == phase then hs else phases p

-- `ngx_http_add_variable`, with the copy of the name into the pool that goes before it, and
-- `ngx_array_push`: the place of the variable or of the slot, or a null pointer.
pub record Registry : Type 0 where
  pub add_variable : Bytes → List HttpVariable → List HttpVariable × Option ℕ
  pub array_push : List (Option PhaseHandler) → List (Option PhaseHandler) × Option ℕ

-- A write through a pointer into a list.
unfoldable pub write_at : {A : Type 0} → ℕ → (A → A) → List A → List A
write_at n f [] = []
write_at zero f (x ∷ xs) = f x ∷ xs
write_at (suc n) f (x ∷ xs) = x ∷ write_at n f xs

unfoldable pub attach_evaluator : HttpVariable → HttpVariable
attach_evaluator v = record v { get_handler = some inference_upstream_var_get; data_word = 0 }

unfoldable pub preconfiguration : Registry → MainConf → MainConf × Status
preconfiguration reg c =
    let (vs, v) = reg.add_variable (bytes "inference_upstream") c.variables in
    elim v [
      | none ↦ (record c { variables = vs }, ngx_error)
      | some i ↦ (record c { variables = write_at i attach_evaluator vs }, ngx_ok)
    ]

-- Without a main configuration `expect` panics, and the process ends: `none`.
unfoldable pub postconfiguration : Registry → Option MainConf → Option (MainConf × Status)
postconfiguration reg none = none
postconfiguration reg (some c) =
    let (hs, h) = reg.array_push (c.phases ngx_http_access_phase) in
    some (elim h [
      | none ↦ (record c { phases = set_handlers ngx_http_access_phase hs c.phases }, ngx_error)
      | some i ↦ (
        record c {
          phases =
              set_handlers ngx_http_access_phase
                (write_at i (λ _. some inference_access_handler) hs) c.phases;
        },
        ngx_ok,
      )
    ])

abbrev pub get_elem? : {A : Type 0} → List A → ℕ → Option A
get_elem? [] n = none
get_elem? (x ∷ xs) zero = some x
get_elem? (x ∷ xs) (suc n) = get_elem? xs n

-- What nginx does: the variable at the place has the name in lower case, and those of other names
-- stay where they are; a slot is the last of the array, and without one the array is as it was.
pub record Registers (reg : Registry) : Type 0 where
  pub added :
      (name : Bytes) (vs vs' : List HttpVariable) (i : ℕ)
      → reg.add_variable name vs ≡ (vs', some i)
      → (v : HttpVariable) × (get_elem? vs' i ≡ some v) × (v.name ≡ to_ascii_lowercase name)
  pub stays :
      (name : Bytes) (vs : List HttpVariable) (j : ℕ) (v : HttpVariable)
      → get_elem? vs j ≡ some v
      → v.name ≢ to_ascii_lowercase name
      → get_elem? (reg.add_variable name vs).0 j ≡ some v
  pub pushed :
      (hs hs' : List (Option PhaseHandler)) (i : ℕ)
      → reg.array_push hs ≡ (hs', some i)
      → (i ≡ length hs) × (hs' ≡ hs ++ (none ∷ []))
  pub not_pushed :
      (hs hs' : List (Option PhaseHandler)) → reg.array_push hs ≡ (hs', none) → hs' ≡ hs
