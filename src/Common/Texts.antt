-- ===== src/Common/Texts.antt =====
-- Texts as lists of code points, with the operations of `str` that the program uses.
use Prim.Native.Char.{code}
use Prim.Native.Nat.{ℕ}
use Prim.Native.String.{String}
use mathlib.Core.Path.{◌≡◌, ◌∙◌, ap, sym, refl}
use mathlib.Core.Logic.{◌↔◌, ◌≢◌}
use mathlib.Core.Bool.{Bool, true, false, ◌&&◌, ◌||◌}
use mathlib.Core.List.{List, [], ◌∷◌, ◌++◌}
use mathlib.Core.Option.{Option, none, some}
use native.Mathlib.Omega.{arith}
use mathlib.Core.Logic.{inl, inr}
use janux.Common.Tests.{leb, ◌==◌, if◌then◌else◌, Bool-cases}
use janux.Common.Lists.{In}

abbrev pub Text : Type 0
Text = List ℕ

-- A literal of the source as a text.
abbrev pub chars : String → Text
chars String.[] = []
chars (String.◌∷◌ c s) = code c ∷ chars s

abbrev pub text_eq : Text → Text → Bool
text_eq [] [] = true
text_eq [] (_ ∷ _) = false
text_eq (_ ∷ _) [] = false
text_eq (x ∷ xs) (y ∷ ys) = x == y && text_eq xs ys

pub text_eq_iff : (s t : Text) → (text_eq s t ≡ true) ↔ (s ≡ t)
text_eq_iff [] [] = (λ _. refl, λ _. refl)
text_eq_iff [] (y ∷ ys) = (λ e. cc, λ e. cc)
text_eq_iff (x ∷ xs) [] = (λ e. cc, λ e. cc)
text_eq_iff (x ∷ xs) (y ∷ ys) = ground (arith, text_eq_iff xs ys)

pub text_eq_refl : (s : Text) → text_eq s s ≡ true
text_eq_refl s = (text_eq_iff s s).1 refl

abbrev pub opt_text_eq : Option Text → Option Text → Bool
opt_text_eq none none = true
opt_text_eq (some s) (some t) = text_eq s t
opt_text_eq _ _ = false

-- `[String]::contains`, and membership in a `HashSet<String>` kept as the list of its members.
abbrev pub contains : Text → List Text → Bool
contains s [] = false
contains s (t ∷ ts) = text_eq s t || contains s ts

-- `str::split(c)`: one piece more than there are separators.
abbrev pub push_front : ℕ → List Text → List Text
push_front x [] = (x ∷ []) ∷ []
push_front x (piece ∷ pieces) = (x ∷ piece) ∷ pieces

unfoldable pub split : ℕ → Text → List Text
split c [] = [] ∷ []
split c (x ∷ xs) = if x == c then [] ∷ split c xs else push_front x (split c xs)

-- `[&str]::join(c)`
pub join : ℕ → List Text → Text
join c [] = []
join c (piece ∷ []) = piece
join c (piece ∷ next ∷ pieces) = piece ++ (c ∷ join c (next ∷ pieces))

abbrev pub starts_with : ℕ → Text → Bool
starts_with c [] = false
starts_with c (x ∷ _) = x == c

abbrev pub ends_with : ℕ → Text → Bool
ends_with c [] = false
ends_with c (x ∷ []) = x == c
ends_with c (x ∷ y ∷ ys) = ends_with c (y ∷ ys)

abbrev pub is_empty {ℓ} : {A : Type ℓ} → List A → Bool
is_empty [] = true
is_empty (_ ∷ _) = false

-- All but the last code point.
abbrev pub drop_last : Text → Text
drop_last [] = []
drop_last (x ∷ []) = []
drop_last (x ∷ y ∷ ys) = x ∷ drop_last (y ∷ ys)

-- `HashMap<String, V>::get` and `insert`, a later insert of a key hiding the earlier one.
module _ {ℓ} {V : Type ℓ} where
  abbrev pub lookup : Text → List (Text × V) → Option V
  lookup k [] = none
  lookup k ((j, v) ∷ m) = if text_eq j k then some v else lookup k m

pub split-ne-nil : (c : ℕ) (s : Text) → split c s ≢ []
unfolding split
split-ne-nil c [] e = cc
split-ne-nil c (x ∷ xs) e = ground (arith, split-ne-nil c xs)

join-push_front : (c x : ℕ) (ps : List Text) → ps ≢ [] → join c (push_front x ps) ≡ x ∷ join c ps
unfolding join
join-push_front c x [] h = absurd (h refl)
join-push_front c x (p ∷ []) h = refl
join-push_front c x (p ∷ q ∷ qs) h = refl

join-nil_cons : (c : ℕ) (ps : List Text) → ps ≢ [] → join c ([] ∷ ps) ≡ c ∷ join c ps
unfolding join
join-nil_cons c [] h = absurd (h refl)
join-nil_cons c (p ∷ ps) h = refl

-- Joining the pieces gives the text back.
pub join-split : (c : ℕ) (s : Text) → join c (split c s) ≡ s
unfolding split
join-split c [] = unfold join in refl
join-split c (x ∷ xs) = ground (
  arith,
  join-split c xs,
  split-ne-nil c xs,
  join-push_front c x (split c xs),
  join-nil_cons c (split c xs),
)

push_front-append :
    (x : ℕ) (ps qs : List Text) → ps ≢ [] → push_front x (ps ++ qs) ≡ push_front x ps ++ qs
push_front-append x [] qs h = absurd (h refl)
push_front-append x (p ∷ ps) qs h = refl

-- Splitting at a separator that stands between two texts.
pub split-append : (c : ℕ) (s t : Text) → split c (s ++ (c ∷ t)) ≡ split c s ++ split c t
unfolding split
split-append c [] t = ground arith
split-append c (x ∷ xs) t = elim (Bool-cases (x == c)) [
  | inl h ↦ rw (h, split) (ap (λ ps. [] ∷ ps) (split-append c xs t))
  | inr h ↦
      rw (h, split)
        (ap (push_front x) (split-append c xs t)
          ∙ push_front-append x (split c xs) (split c t) (split-ne-nil c xs))
]

append_assoc : (a b d : Text) → (a ++ b) ++ d ≡ a ++ (b ++ d)
append_assoc [] b d = refl
append_assoc (x ∷ a) b d = ap (λ s. x ∷ s) (append_assoc a b d)

pub join-append :
    (c : ℕ) (ps qs : List Text)
    → ps ≢ []
    → qs ≢ []
    → join c (ps ++ qs) ≡ join c ps ++ (c ∷ join c qs)
unfolding join
join-append c [] qs h k = absurd (h refl)
join-append c (p ∷ []) [] h k = absurd (k refl)
join-append c (p ∷ []) (q ∷ qs) h k = refl
join-append c (p ∷ q ∷ ps) qs h k =
    ap (λ s. p ++ (c ∷ s)) (join-append c (q ∷ ps) qs (λ e. cc) k)
    ∙ sym (append_assoc p (c ∷ join c (q ∷ ps)) (c ∷ join c qs))

pub contains_self : (s : Text) (ts : List Text) → contains s (s ∷ ts) ≡ true
contains_self s ts = rw (text_eq_refl s)

-- A key that is found stands in the map.
pub contains-In : (s : Text) (ts : List Text) → contains s ts ≡ true → In s ts
contains-In s [] e = cc
contains-In s (t ∷ ts) e = elim (Bool-cases (text_eq s t)) [
  | inl h ↦ inl ((text_eq_iff s t).0 h)
  | inr h ↦ inr (contains-In s ts (rw h at e))
]

pub In-contains : (s : Text) (ts : List Text) → In s ts → contains s ts ≡ true
In-contains s [] i = absurd i
In-contains s (t ∷ ts) (inl e) = rw ((text_eq_iff s t).1 e)
In-contains s (t ∷ ts) (inr i) = ground (arith, In-contains s ts i)

pub text_eq-ne : (s t : Text) → s ≢ t → text_eq s t ≡ false
text_eq-ne s t h = elim (Bool-cases (text_eq s t)) [
  | inl e ↦ absurd (h ((text_eq_iff s t).0 e))
  | inr e ↦ e
]

-- `char::is_whitespace`: the code points with the property White_Space.
abbrev pub is_whitespace : ℕ → Bool
is_whitespace c =
    (leb 9 c && leb c 13)
    || c == 0x20
    || c == 0x85
    || c == 0xa0
    || c == 0x1680
    || (leb 0x2000 c && leb c 0x200a)
    || c == 0x2028
    || c == 0x2029
    || c == 0x202f
    || c == 0x205f
    || c == 0x3000

-- `str::trim`
abbrev pub trim_start : Text → Text
trim_start [] = []
trim_start (x ∷ xs) = if is_whitespace x then trim_start xs else x ∷ xs

abbrev pub keep_end : ℕ → Text → Text
keep_end x [] = if is_whitespace x then [] else x ∷ []
keep_end x (y ∷ ys) = x ∷ y ∷ ys

abbrev pub trim_end : Text → Text
trim_end [] = []
trim_end (x ∷ xs) = keep_end x (trim_end xs)

abbrev pub trim : Text → Text
trim s = trim_end (trim_start s)
