-- ===== src/Config/Block.antt =====
-- A block of directives (src/lib.rs): nginx calls the handler of each line in turn, and refuses the
-- configuration at the first that returns NGX_CONF_ERROR.
use ngx_inference.Prelude.{
  ◌≡◌, ◌≢◌, ◌∙◌, refl, sym, ap, true, false, List, [], ◌∷◌, map, Option, none, some, arith, inl,
  inr, Bool-cases,
}
use mathlib.Core.Path.{subst}
use mathlib.Core.Logic.{∥∥₁_elim}
use mathlib.Core.List.{Mem, mem-cons_self, Nodup, Nodup-cons, Permᴰ, Perm}
use mathlib.Core.List.Perm as Permute
use ngx_inference.Text.{Bytes}
use ngx_inference.Utf8.{is_utf8, from_utf8}
use ngx_inference.Config.{ModuleConfig}
use ngx_inference.Config.Directives.{
  Directive, conf_ok, conf_error, ConfStatus, set_directive, store,
}
use ngx_inference.Config.Commands.{then_store, store_comm}

-- A line: its directive, the name that it was written with, and its value.
pub record Line : Type 0 where
  pub directive : Directive
  pub name : Bytes
  pub value : Bytes

abbrev accepted : Option ModuleConfig × ConfStatus → Option ModuleConfig
accepted (conf, conf_ok) = conf
accepted (conf, conf_error) = none

unfoldable pub run_line : Line → ModuleConfig → Option ModuleConfig
run_line l c =
    accepted
      (set_directive l.directive (some (record { args = some (l.name ∷ l.value ∷ []) })) (some c))

abbrev pub then_line : Line → Option ModuleConfig → Option ModuleConfig
then_line l none = none
then_line l (some c) = run_line l c

unfoldable pub run_block : List Line → Option ModuleConfig → Option ModuleConfig
run_block [] conf = conf
run_block (l ∷ ls) conf = run_block ls (then_line l conf)

ModuleConfig-set : IsSet (Option ModuleConfig)
ModuleConfig-set = hlevel

run_line_lem :
    (l : Line) (c : ModuleConfig)
    → run_line l c ≡ elim (is_utf8 l.value) as (λ _. Option ModuleConfig) [
      | true ↦ store l.directive c l.value
      | false ↦ none
    ]
unfolding run_line set_directive from_utf8
run_line_lem l c = ground arith

line_then :
    (l : Line) (o : Option ModuleConfig)
    → is_utf8 l.value ≡ true
    → then_line l o ≡ then_store l.directive l.value o
line_then l none h = refl
line_then l (some c) h = rw (run_line_lem l c, h) refl

line_refused : (l : Line) (o : Option ModuleConfig) → is_utf8 l.value ≡ false → then_line l o ≡ none
line_refused l none h = refl
line_refused l (some c) h = rw (run_line_lem l c, h) refl

stores_comm :
    (k l : Line) (o : Option ModuleConfig)
    → k.directive ≢ l.directive
    → then_store l.directive l.value (then_store k.directive k.value o)
      ≡ then_store k.directive k.value (then_store l.directive l.value o)
stores_comm k l none h = refl
stores_comm k l (some c) h = store_comm k.directive l.directive c k.value l.value h

-- Two lines of different directives, in either order.
lines_comm :
    (k l : Line) (o : Option ModuleConfig)
    → k.directive ≢ l.directive
    → then_line l (then_line k o) ≡ then_line k (then_line l o)
lines_comm k l o h = elim (Bool-cases (is_utf8 k.value)) [
  | inr bad ↦ ap (then_line l) (line_refused k o bad) ∙ sym (line_refused k (then_line l o) bad)
  | inl good ↦ elim (Bool-cases (is_utf8 l.value)) [
    | inr bad ↦ line_refused l (then_line k o) bad ∙ ap (then_line k) (sym (line_refused l o bad))
    | inl fine ↦
        line_then l (then_line k o) fine
        ∙ ap (then_store l.directive l.value) (line_then k o good)
        ∙ stores_comm k l o h
        ∙ ap (then_store k.directive k.value) (sym (line_then l o fine))
        ∙ sym (line_then k (then_line l o) good)
  ]
]

abbrev pub directives : List Line → List Directive
directives ls = map (λ (l : Line). l.directive) ls

heads_differ : (d e : Directive) (ds : List Directive) → Nodup (d ∷ e ∷ ds) → d ≢ e
heads_differ d e ds n same =
    ((Nodup-cons {a = d} {l = e ∷ ds}).0 n).0
      (subst (λ k. Mem k (e ∷ ds)) (sym same) (mem-cons_self))

block_permuted :
    {ls ms : List Line}
    → Permᴰ ls ms
    → Nodup (directives ls)
    → (o : Option ModuleConfig) → run_block ls o ≡ run_block ms o
unfolding run_block
block_permuted Permᴰ.nil n o = refl
block_permuted (Permᴰ.cons {a = a} {b = b} {l₁ = ls} {l₂ = ms} e p) n o =
    block_permuted p (Nodup-cons.0 n).1 (then_line a o) ∙ ap (λ k. run_block ms (then_line k o)) e
block_permuted (Permᴰ.swap {a = a} {b = b} {b' = b'} {l = ls} e f) n o =
    ap (run_block ls) (lines_comm a b o (heads_differ a.directive b.directive (directives ls) n))
    ∙ ap (λ k. run_block ls (then_line k (then_line b o))) e
    ∙ ap (λ k. run_block ls (then_line b' (then_line k o))) f
block_permuted (Permᴰ.trans p q) n o =
    block_permuted p n o
    ∙ block_permuted q (Permute.nodup (Permute.map (λ (l : Line). l.directive) ∣ p ∣₁) n) o

-- The order of a block does not matter: two blocks that have the same lines in any order, with no
-- directive twice, leave the same configuration, from every configuration, or are both refused.
pub run_block_perm :
    (ls ms : List Line) (o : Option ModuleConfig)
    → Perm ls ms
    → Nodup (directives ls)
    → run_block ls o ≡ run_block ms o
run_block_perm ls ms o p n = ∥∥₁_elim p (ModuleConfig-set _ _) (λ d. block_permuted d n o)
