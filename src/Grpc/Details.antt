-- ===== src/Grpc/Details.antt =====
-- The text of a transport error (src/grpc.rs): `extract_error_details` walks the chain of sources.
use ngx_inference.Prelude.{◌≡◌, refl, ap, List, [], ◌∷◌, ◌++◌, Option, none, some}
use ngx_inference.Text.{Bytes}

-- An error with its text, and with the error that caused it, where there is one.
pub data TransportError : Type 0 where
  uncaused : Bytes → TransportError
  caused : Bytes → TransportError → TransportError

abbrev pub text_of : TransportError → Bytes
text_of (uncaused s) = s
text_of (caused s source) = s

-- The loop: the texts of the sources, in order.
walk_chain : TransportError → List Bytes → List Bytes
walk_chain (uncaused s) error_chain = error_chain
walk_chain (caused s source) error_chain = walk_chain source (error_chain ++ (text_of source ∷ []))

abbrev last : List Bytes → Option Bytes
last [] = none
last (s ∷ ss) = elim (last ss) [ none ↦ some s | some t ↦ some t ]

unfoldable pub extract_error_details : TransportError → Bytes
unfolding walk_chain
extract_error_details error = elim (last (walk_chain error [])) [
  | none ↦ text_of error
  | some s ↦ s
]

-- The text at the end of the chain.
abbrev pub root_cause : TransportError → Bytes
root_cause (uncaused s) = s
root_cause (caused s source) = root_cause source

last-append : (ss : List Bytes) (s : Bytes) → last (ss ++ (s ∷ [])) ≡ some s
last-append [] s = refl
last-append (t ∷ ss) s = rw (last-append ss s)

walk_chain-root :
    (e : TransportError) (ss : List Bytes)
    → last ss ≡ some (text_of e)
    → last (walk_chain e ss) ≡ some (root_cause e)
unfolding walk_chain
walk_chain-root (uncaused s) ss h = h
walk_chain-root (caused s source) ss h =
    walk_chain-root source (ss ++ (text_of source ∷ [])) (last-append ss (text_of source))

-- The text is that of the root cause, whether the error is its own or not.
pub extract_error_details_lem : (e : TransportError) → extract_error_details e ≡ root_cause e
unfolding extract_error_details
extract_error_details_lem (uncaused s) = refl
extract_error_details_lem (caused s source) =
    ap (λ o. elim o as (λ _. Bytes) [ none ↦ s | some t ↦ t ])
      (walk_chain-root source (text_of source ∷ []) refl)
