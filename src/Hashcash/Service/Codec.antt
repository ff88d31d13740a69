-- ===== src/Hashcash/Service/Codec.antt =====
-- src/hashcash/hashcash.service.ts: taking a sealed nonce apart at its last dot.
use Prim.Native.Char.{code}
use text.Mathlib.TextLemmas.{nil-append, cons-append}
use zt_access_gateway.Common.{String, ◌≡◌, refl, ◌≢◌, none, some, arith, eq_iff, concat}
use zt_access_gateway.Hashcash.Service.{split_last_dot, parse_nonce}

abbrev pub HasNoDot : String → Type 0
HasNoDot String.[] = Unit
HasNoDot (String.◌∷◌ ch s) = (code ch ≢ b'.') × HasNoDot s

split_last_dot-none : (s : String) → HasNoDot s → split_last_dot s ≡ none
unfolding split_last_dot
split_last_dot-none String.[] h = refl
split_last_dot-none (String.◌∷◌ ch s) h = rw (split_last_dot-none s h.1) (ground arith)

split_last_dot-dot : (s : String) → HasNoDot s → split_last_dot (concat "." s) ≡ some ("", s)
unfolding split_last_dot
split_last_dot-dot s h = rw (cons-append, nil-append) (rw (split_last_dot-none s h) refl)

split_last_dot-append :
    (a s : String) → HasNoDot s → split_last_dot (concat a (concat "." s)) ≡ some (a, s)
unfolding split_last_dot
split_last_dot-append String.[] s h = rw nil-append (split_last_dot-dot s h)
split_last_dot-append (String.◌∷◌ ch a) s h =
    rw cons-append (rw (split_last_dot-append a s h, split_last_dot) refl)

pub parse_nonce-concat :
    (a s : String)
    → HasNoDot s
    → a ≢ ""
    → s ≢ ""
    → parse_nonce (concat a (concat "." s)) ≡ some (a, s)
unfolding parse_nonce
parse_nonce-concat a s h p q =
    rw (split_last_dot-append a s h, parse_nonce) (ground (arith, eq_iff a "", eq_iff s ""))
