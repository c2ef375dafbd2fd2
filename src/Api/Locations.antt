-- ===== src/Api/Locations.antt =====
-- The last part of a `Location` header, where the client finds the name of what was created.
use Prim.Native.Char.{Char, code}
use Prim.Native.String.{[], ◌∷◌, ◌++◌}
use text.Mathlib.TextLemmas.{nil-append, cons-append}
use mathlib.Core.List.{List}
use fusis.Prelude.{String, nat_beq, true, Bool-cases, ◌≡◌, ◌≢◌, refl, ◌∙◌, inl, inr, arith}
use fusis.Api.Client.{split_slash, last_part, longer}

abbrev pub NoSlash : String → Type 0
NoSlash [] = Unit
NoSlash (c ∷ s) = (code c ≢ b'/') × NoSlash s

-- A text with a slash has two parts at least.
abbrev Two : List String → Type 0
Two List.[] = ⊥
Two (List.◌∷◌ p List.[]) = ⊥
Two (List.◌∷◌ p (List.◌∷◌ q ps)) = Unit

abbrev Cut : List String → List String → Type 0
Cut ps qs = Two ps × (last_part ps ≡ last_part qs)

longer-Cut : (c : Char) (ps qs : List String) → Cut ps qs → Cut (longer c ps) qs
unfolding longer last_part
longer-Cut c List.[] qs h = absurd h.0
longer-Cut c (List.◌∷◌ p List.[]) qs h = absurd h.0
longer-Cut c (List.◌∷◌ p (List.◌∷◌ q ps)) qs h = (tt, h.1)

abbrev Some : List String → Type 0
Some List.[] = ⊥
Some (List.◌∷◌ p ps) = Unit

longer-Some : (c : Char) (ps : List String) → Some (longer c ps)
unfolding longer
longer-Some c List.[] = tt
longer-Some c (List.◌∷◌ p ps) = tt

split-Some : (s : String) → Some (split_slash s)
unfolding split_slash
split-Some [] = tt
split-Some (c ∷ s) = elim (Bool-cases (nat_beq (code c) b'/')) [
  | inl e ↦ rw e tt
  | inr e ↦ rw e (longer-Some c (split_slash s))
]

head-Cut : (ps qs : List String) → Some ps → last_part ps ≡ last_part qs → Cut (List.◌∷◌ "" ps) qs
unfolding last_part
head-Cut List.[] qs h e = absurd h
head-Cut (List.◌∷◌ p ps) qs h e = (tt, e)

cons-Cut :
    (c : Char) (s : String) (qs : List String)
    → Cut (split_slash s) qs
    → Cut (split_slash (c ∷ s)) qs
unfolding split_slash
cons-Cut c s qs h = elim (Bool-cases (nat_beq (code c) b'/')) [
  | inl e ↦ rw e (head-Cut (split_slash s) qs (split-Some s) h.1)
  | inr e ↦ rw e (longer-Cut c (split_slash s) qs h)
]

append-Cut :
    (s t : String) (qs : List String) → Cut (split_slash t) qs → Cut (split_slash (s ++ t)) qs
append-Cut [] t qs h = rw nil-append h
append-Cut (c ∷ s) t qs h = rw cons-append (cons-Cut c (s ++ t) qs (append-Cut s t qs h))

abbrev EndsInSlash : String → Type 0
EndsInSlash [] = ⊥
EndsInSlash (c ∷ []) = nat_beq (code c) b'/' ≡ true
EndsInSlash (c ∷ d ∷ s) = EndsInSlash (d ∷ s)

slash-Cut : (s t : String) → EndsInSlash s → Cut (split_slash (s ++ t)) (split_slash t)
unfolding split_slash
slash-Cut [] t h = absurd h
slash-Cut (c ∷ []) t h =
    rw cons-append
      (rw nil-append (rw h (head-Cut (split_slash t) (split_slash t) (split-Some t) refl)))
slash-Cut (c ∷ d ∷ s) t h =
    rw cons-append (cons-Cut c ((d ∷ s) ++ t) (split_slash t) (slash-Cut (d ∷ s) t h))

split_whole : (s : String) → NoSlash s → split_slash s ≡ List.◌∷◌ s List.[]
unfolding split_slash longer
split_whole [] h = refl
split_whole (c ∷ s) h = elim (Bool-cases (nat_beq (code c) b'/')) [
  | inl e ↦ absurd (ground (arith, e, h.0))
  | inr e ↦ rw e (rw (split_whole s h.1) refl)
]

last_whole : (s : String) → NoSlash s → last_part (split_slash s) ≡ s
unfolding last_part
last_whole s h = rw (split_whole s h) refl

pub service_location :
    (name : String) → NoSlash name → last_part (split_slash ("/services/" ++ name)) ≡ name
service_location name h = (slash-Cut "/services/" name refl).1 ∙ last_whole name h

pub destination_location :
    (service name : String)
    → NoSlash name
    → last_part (split_slash ("/services/" ++ (service ++ ("/destinations/" ++ name)))) ≡ name
destination_location service name h =
    (append-Cut "/services/" (service ++ ("/destinations/" ++ name)) (split_slash name) (
      append-Cut service ("/destinations/" ++ name) (split_slash name)
        (slash-Cut "/destinations/" name refl))).1
    ∙ last_whole name h
