-- ===== src/Base/Text.antt =====
-- Go's strings.Split at a comma, strings.Join with a comma, and sort.Strings.
use Prim.Native.Char.{code}
use Prim.Native.String.{String, ◌++◌ as ◌<>◌, compare}
use Prim.Native.String.append
use Prim.Native.String.compare as str_compare
use Prim.Native.Nat.{ℕ, Ordering, compare as compare_ℕ}
use mathlib.Core.Path.{◌≡◌, refl, sym, ap, ◌∙◌}
use mathlib.Core.Logic.{◌≢◌}
use mathlib.Core.Bool.{Bool, true, false, not, ◌||◌}
use mathlib.Core.List.{List, [], ◌∷◌}
use native.Mathlib.Omega.{arith}
use text.Mathlib.Text.{is_le, is_lt}
use text.Mathlib.TextEquality.{path_by_compare}
use yanet_operator.Base.Equality.{◌==◌, contains, nat_eq, string_eq, if◌then◌else◌}
use yanet_operator.Base.Lists.{All}

abbrev comma : ℕ
comma = 44

-- Puts a character in front of the first piece.
abbrev extend : List String → (String → String) → List String
extend [] f = f "" ∷ []
extend (w ∷ ws) f = f w ∷ ws

-- strings.Split(s, ",")
unfoldable pub split : String → List String
split String.[] = "" ∷ []
split (String.◌∷◌ c s) =
    let rest = split s in if code c == comma then "" ∷ rest else extend rest (λ w. String.◌∷◌ c w)

-- strings.Join(words, ",")
unfoldable pub join : List String → String
join [] = ""
join (w ∷ []) = w
join (w ∷ v ∷ ws) = w <> ("," <> join (v ∷ ws))

-- Where sort.Strings puts one more element.
abbrev place : String → List String → List String
place w [] = w ∷ []
place w (v ∷ vs) = if is_le (compare w v) then w ∷ v ∷ vs else v ∷ place w vs

unfoldable pub sort_strings : List String → List String
sort_strings [] = []
sort_strings (w ∷ ws) = place w (sort_strings ws)

abbrev has_comma : String → Bool
has_comma String.[] = false
has_comma (String.◌∷◌ c s) = code c == comma || has_comma s

-- A key that a comma-separated list can hold.
abbrev pub IsPlain : String → Type 0
IsPlain w = (has_comma w ≡ false) × ((w == "") ≡ false)

split_one : (w : String) → has_comma w ≡ false → split w ≡ w ∷ []
unfolding split
split_one String.[] h = refl
split_one (String.◌∷◌ c s) h = ground (arith, split_one s)

comma-cons : (r : String) → "," <> r ≡ String.◌∷◌ "," r
comma-cons r = append.cons "," "" r ∙ ap (λ t. String.◌∷◌ "," t) (append.nil r)

split-comma : (w r : String) → has_comma w ≡ false → split (w <> ("," <> r)) ≡ w ∷ split r
unfolding split nat_eq
split-comma String.[] r h = rw (append.nil, comma-cons)
split-comma (String.◌∷◌ c s) r h = rw (append.cons c s ("," <> r)) (ground (arith, split-comma s r))

contains-place :
    (a w : String) (ws : List String) → contains (place w ws) a ≡ (a == w || contains ws a)
contains-place a w [] = refl
contains-place a w (v ∷ vs) = ground (arith, contains-place a w vs)

pub contains-sort_strings :
    (a : String) (ws : List String) → contains (sort_strings ws) a ≡ contains ws a
unfolding sort_strings
contains-sort_strings a [] = refl
contains-sort_strings a (w ∷ ws) =
    ground (arith, contains-place a w (sort_strings ws), contains-sort_strings a ws)

All-place : (w : String) (ws : List String) → IsPlain w → All IsPlain ws → All IsPlain (place w ws)
All-place w [] p h = (p, tt)
All-place w (v ∷ vs) p h = ground (arith, All-place w vs p h.1)

pub All-sort_strings : (ws : List String) → All IsPlain ws → All IsPlain (sort_strings ws)
unfolding sort_strings
All-sort_strings [] h = tt
All-sort_strings (w ∷ ws) h = All-place w (sort_strings ws) h.0 (All-sort_strings ws h.1)

-- A list of at least one word comes back from its joined text.
pub split-join :
    (w : String) (ws : List String) → All IsPlain (w ∷ ws) → split (join (w ∷ ws)) ≡ w ∷ ws
unfolding join
split-join w [] h = split_one w h.0.0
split-join w (v ∷ ws) h =
    split-comma w (join (v ∷ ws)) h.0.0 ∙ ap (λ l. w ∷ l) (split-join v ws h.1)

-- Go's `<` on texts, which compares bytes.
abbrev pub text_lt : String → String → Bool
text_lt s t = is_lt (compare s t)

abbrev flip : Ordering → Ordering
flip Ordering.lt = Ordering.gt
flip Ordering.eq = Ordering.eq
flip Ordering.gt = Ordering.lt

compare_ℕ-flip : (m n : ℕ) → compare_ℕ m n ≡ flip (compare_ℕ n m)
compare_ℕ-flip m n = ground arith

compare-flip : (s t : String) → compare s t ≡ flip (compare t s)
compare-flip String.[] String.[] = refl
compare-flip String.[] (String.◌∷◌ d t) = rw (str_compare.nil-cons d t, str_compare.cons-nil d t)
compare-flip (String.◌∷◌ c s) String.[] = rw (str_compare.nil-cons c s, str_compare.cons-nil c s)
compare-flip (String.◌∷◌ c s) (String.◌∷◌ d t) =
    rw (str_compare.cons-cons c d s t, str_compare.cons-cons d c t s)
      (ground (arith, compare-flip s t, compare_ℕ-flip (code c) (code d)))

-- Two different texts are in order one way or the other.
pub text_lt_total : (s t : String) → s ≢ t → text_lt s t ≡ not (text_lt t s)
text_lt_total s t h = ground (arith, compare-flip s t, path_by_compare s t)

compare_ℕ-lt_trans :
    (l m n : ℕ)
    → compare_ℕ l m ≡ Ordering.lt
    → compare_ℕ m n ≡ Ordering.lt
    → compare_ℕ l n ≡ Ordering.lt
compare_ℕ-lt_trans l m n h k = ground arith

compare_ℕ-eq : (m n : ℕ) → compare_ℕ m n ≡ Ordering.eq → m ≡ n
compare_ℕ-eq m n h = ground arith

compare-lt_trans :
    (s t u : String)
    → compare s t ≡ Ordering.lt
    → compare t u ≡ Ordering.lt
    → compare s u ≡ Ordering.lt
compare-lt_trans String.[] String.[] u h k = cc
compare-lt_trans String.[] (String.◌∷◌ d t) String.[] h k =
    ground (arith, sym (str_compare.cons-nil d t) ∙ k)
compare-lt_trans String.[] (String.◌∷◌ d t) (String.◌∷◌ e u) h k =
    rw (str_compare.nil-cons e u) refl
compare-lt_trans (String.◌∷◌ c s) String.[] u h k =
    ground (arith, sym (str_compare.cons-nil c s) ∙ h)
compare-lt_trans (String.◌∷◌ c s) (String.◌∷◌ d t) String.[] h k =
    ground (arith, sym (str_compare.cons-nil d t) ∙ k)
compare-lt_trans (String.◌∷◌ c s) (String.◌∷◌ d t) (String.◌∷◌ e u) h k =
    rw (str_compare.cons-cons c e s u) (
      ground (
        arith,
        sym (str_compare.cons-cons c d s t) ∙ h,
        sym (str_compare.cons-cons d e t u) ∙ k,
        compare-lt_trans s t u,
        compare_ℕ-lt_trans (code c) (code d) (code e),
        compare_ℕ-eq (code c) (code d),
        compare_ℕ-eq (code d) (code e),
      ))

pub text_lt_trans : (s t u : String) → text_lt s t ≡ true → text_lt t u ≡ true → text_lt s u ≡ true
text_lt_trans s t u h k = ground (arith, compare-lt_trans s t u)
