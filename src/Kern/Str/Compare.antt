-- ===== src/Kern/Str/Compare.antt =====
-- Comparison and copy of src/kernel/stdkern/kernstr.c.
use asif_os.Prelude.{
  ℕ, zero, suc, ◌+◌, ◌≤◌, ◌<◌, ◌≡◌, ◌≢◌, ◌↔◌, refl, sym, ap, ap₂, ◌∙◌, arith, true, false, some,
  List, [], ◌∷◌, ◌++◌, All, length, drop, Bool-cases, inl, inr, pick_else, length-append,
}
use asif_os.Prelude.Int.{ℤ, pos, negsuc}
use asif_os.Kern.Str.{char_diff, is_zero, strcmpk, strcpyk, text_at}

-- A character of a text: a byte that is not NUL.
abbrev pub IsChar : ℕ → Type 0
IsChar ch = (0 < ch) × (ch < 256)

pub is_zero_iff : (d : ℤ) → (is_zero d ≡ true) ↔ (d ≡ pos 0)
is_zero_iff (pos zero) = ((λ e. refl), (λ e. refl))
is_zero_iff (pos (suc n)) = ((λ e. cc), (λ e. cc))
is_zero_iff (negsuc n) = ((λ e. cc), (λ e. cc))

char_diff_same : (a : ℕ) → char_diff a a ≡ pos 0
unfolding char_diff
char_diff_same a = ground arith

char_diff_zero : (a b : ℕ) → a < 256 → b < 256 → char_diff a b ≡ pos 0 → a ≡ b
unfolding char_diff
char_diff_zero a b lt lt' e = ground arith

pub strcmpk_same : (s : List ℕ) → strcmpk s s ≡ pos 0
unfolding strcmpk
strcmpk_same [] = refl
strcmpk_same (a ∷ s) = rw (char_diff_same a) (strcmpk_same s)

pub strcmpk_zero : (s t : List ℕ) → All IsChar s → All IsChar t → strcmpk s t ≡ pos 0 → s ≡ t
unfolding strcmpk
strcmpk_zero [] [] hs ht e = refl
strcmpk_zero [] (b ∷ t) hs (h, ht) e =
    let same = char_diff_zero 0 b (omega arith) h.1 e in absurd (omega (arith, h.0))
strcmpk_zero (a ∷ s) [] (h, hs) ht e =
    let same = char_diff_zero a 0 h.1 (omega arith) e in absurd (omega (arith, h.0))
strcmpk_zero (a ∷ s) (b ∷ t) (h, hs) (h', ht) e = elim (Bool-cases (is_zero (char_diff a b))) [
  | inl equal ↦
      ap₂ ◌∷◌ (char_diff_zero a b h.1 h'.1 ((is_zero_iff (char_diff a b)).0 equal))
        (strcmpk_zero s t hs ht (rw equal at e))
  | inr differ ↦ absurd (differ_not (char_diff a b) differ (rw differ at e))
]
  where
    differ_not : (d : ℤ) → is_zero d ≡ false → d ≢ pos 0
    differ_not d no_zero e = cc

-- `strcmpk` of two texts of bytes that are not NUL answers 0 exactly when they are the same.
pub strcmpk_iff : (s t : List ℕ) → All IsChar s → All IsChar t → (strcmpk s t ≡ pos 0) ↔ (s ≡ t)
strcmpk_iff s t hs ht = (strcmpk_zero s t hs ht, λ e. ap (strcmpk s) (sym e) ∙ strcmpk_same s)

pub strcpyk_eq :
    (dest src : List ℕ)
    → length src ≤ length dest
    → strcpyk dest src ≡ some (src ++ drop (length src) dest)
unfolding strcpyk
strcpyk_eq dest [] le = refl
strcpyk_eq [] (ch ∷ src) le = absurd (omega arith)
strcpyk_eq (byte ∷ dest) (ch ∷ src) le = rw (strcpyk_eq dest src (omega arith)) refl

text_at-append : (src rest : List ℕ) → All IsChar src → text_at (src ++ rest) ≡ src ++ text_at rest
unfolding text_at
text_at-append [] rest h = refl
text_at-append (ch ∷ src) rest (h, hs) =
    pick_else (λ e. omega (arith, h.0)) [] (ch ∷ text_at (src ++ rest))
    ∙ ap (λ t. ch ∷ t) (text_at-append src rest hs)

-- `strcpyk` of a text that fits writes its characters and leaves the bytes behind them: what stands
-- there then is the text with the old bytes up to the next NUL behind it.
pub strcpyk-text_at :
    (dest src : List ℕ)
    → All IsChar src
    → length src ≤ length dest
    → (dest' : List ℕ) × (strcpyk dest src ≡ some dest')
      × (text_at dest' ≡ src ++ text_at (drop (length src) dest))
      × (length dest' ≡ length dest)
strcpyk-text_at dest src h le = (
  src ++ drop (length src) dest,
  strcpyk_eq dest src le,
  text_at-append src (drop (length src) dest) h,
  length-append src (drop (length src) dest) ∙ rest_length dest src le,
)
  where
    rest_length :
        (dest src : List ℕ)
        → length src ≤ length dest
        → length src + length (drop (length src) dest) ≡ length dest
    rest_length dest [] le = omega arith
    rest_length [] (ch ∷ src) le = absurd (omega arith)
    rest_length (byte ∷ dest) (ch ∷ src) le = omega (arith, rest_length dest src (omega arith))
