-- ===== src/Contracts/Text.antt =====
-- The texts of src/std0_quant/execution/contracts.py: lists of code points, with `_nonempty`.
use Prim.Native.Char.{code}
use Prim.Native.String.{String}
use polymarket_quant.Common.{
  ℕ, ◌≡◌, ◌≢◌, refl, ap, subst, ◌∙◌, Bool, true, false, ◌&&◌, ◌||◌, List, [], ◌∷◌, leb, ◌==◌, arith,
  if◌then◌else◌,
}
use polymarket_quant.Numeric.{Result, ok, err, empty_text}

abbrev pub Text : Type 0
Text = List ℕ

-- The code points of a literal.
abbrev pub codes : String → Text
codes String.[] = []
codes (String.◌∷◌ c s) = code c ∷ codes s

abbrev pub same_text : Text → Text → Bool
same_text [] [] = true
same_text (c ∷ s) (d ∷ t) = c == d && same_text s t
same_text _ _ = false

pub same_text-eq : (s t : Text) → same_text s t ≡ true → s ≡ t
same_text-eq [] [] h = refl
same_text-eq [] (d ∷ t) h = absurd (ground arith)
same_text-eq (c ∷ s) [] h = absurd (ground arith)
same_text-eq (c ∷ s) (d ∷ t) h =
    let parts : (c ≡ d) × (same_text s t ≡ true) = ground arith in
    ap (λ n. n ∷ s) parts.0 ∙ ap (λ l. d ∷ l) (same_text-eq s t parts.1)

-- The code points that `strip` takes for white space.
is_space : ℕ → Bool
is_space c =
    leb 9 c && leb c 13
    || leb 28 c && leb c 32
    || c == 133
    || c == 160
    || c == 5760
    || leb 8192 c && leb c 8202
    || c == 8232
    || c == 8233
    || c == 8239
    || c == 8287
    || c == 12288

strip_left : Text → Text
strip_left [] = []
strip_left (c ∷ s) = if is_space c then strip_left s else c ∷ s

-- A character before the rest: a space goes where nothing is left after it.
put_before : ℕ → Text → Text
put_before c [] = if is_space c then [] else c ∷ []
put_before c (d ∷ s) = c ∷ d ∷ s

strip_right : Text → Text
unfolding put_before
strip_right [] = []
strip_right (c ∷ s) = put_before c (strip_right s)

-- `value.strip()`
unfoldable pub strip : Text → Text
unfolding strip_left strip_right is_space
strip s = strip_right (strip_left s)

abbrev pub given_text : Text → Result Text
given_text [] = err empty_text
given_text (c ∷ s) = ok (c ∷ s)

-- `_nonempty`
unfoldable pub nonempty : Text → Result Text
unfolding strip
nonempty s = given_text (strip s)

put_again : (c : ℕ) (s : Text) → strip_right s ≡ s → strip_right (put_before c s) ≡ put_before c s
unfolding strip_right put_before
put_again c [] h = ground arith
put_again c (d ∷ s) h = ap (put_before c) h

right_again : (s : Text) → strip_right (strip_right s) ≡ strip_right s
unfolding strip_right
right_again [] = refl
right_again (c ∷ s) = put_again c (strip_right s) (right_again s)

-- A text that does not begin with a space.
abbrev IsFlush : Text → Type 0
IsFlush [] = Unit
IsFlush (c ∷ s) = is_space c ≡ false

left-IsFlush : (s : Text) → IsFlush (strip_left s)
unfolding strip_left
left-IsFlush [] = tt
left-IsFlush (c ∷ s) =
    elim (is_space c) as (λ b. is_space c ≡ b → IsFlush (if b then strip_left s else c ∷ s)) [
      | true ↦ λ h. left-IsFlush s
      | false ↦ λ h. h
    ]
      refl

put-IsFlush : (c : ℕ) (s : Text) → is_space c ≡ false → IsFlush (put_before c s)
unfolding put_before
put-IsFlush c [] h = rw h h
put-IsFlush c (d ∷ s) h = h

right-IsFlush : (s : Text) → IsFlush s → IsFlush (strip_right s)
unfolding strip_right
right-IsFlush [] h = tt
right-IsFlush (c ∷ s) h = put-IsFlush c (strip_right s) h

unchanged_left : (s : Text) → IsFlush s → strip_left s ≡ s
unfolding strip_left
unchanged_left [] h = refl
unchanged_left (c ∷ s) h = rw h refl

-- Stripping again changes nothing.
pub strip_idem : (s : Text) → strip (strip s) ≡ strip s
unfolding strip
strip_idem s =
    ap strip_right
      (unchanged_left (strip_right (strip_left s)) (right-IsFlush (strip_left s) (left-IsFlush s)))
    ∙ right_again (strip_left s)

-- What `_nonempty` returns: a text that is not empty and has no space at its ends.
abbrev pub IsStripped : Text → Type 0
IsStripped s = (s ≢ []) × (strip s ≡ s)

given_same : (s : Text) {v : Text} → given_text s ≡ ok v → (s ≡ v) × (v ≢ [])
given_same [] h = absurd (ground arith)
given_same (c ∷ s) h = ground arith

given_back : (s : Text) → s ≢ [] → given_text s ≡ ok s
given_back [] h = absurd (h refl)
given_back (c ∷ s) h = refl

pub nonempty-IsStripped : (s : Text) {v : Text} → nonempty s ≡ ok v → IsStripped v
unfolding nonempty
nonempty-IsStripped s h =
    let f = given_same (strip s) h in (f.1, subst (λ v. strip v ≡ v) f.0 (strip_idem s))

-- It returns such a text as it is.
pub nonempty_again : (v : Text) → IsStripped v → nonempty v ≡ ok v
unfolding nonempty
nonempty_again v h = ap given_text h.1 ∙ given_back v h.0
