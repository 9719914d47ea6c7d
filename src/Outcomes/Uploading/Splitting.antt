-- ===== src/Outcomes/Uploading/Splitting.antt =====
-- `split` of joined texts, for the keys of upload-purpose.ts.
use Prim.Native.Char.{Char, code}
use text.Mathlib.TextLemmas.{nil-append, cons-append}
use help_mi.Common.{
  ℕ, ◌≡◌, refl, sym, ap, ◌∙◌, String, true, false, List, [], ◌∷◌, concat, nat_eq, if◌then◌else◌,
  split, push_char, &&-both,
}
use help_mi.Uploads.Keys.{is_key_char, all_key_chars}

-- The pieces of two texts that stand one after the other: the last of the first is joined to the
-- first of the second.
abbrev pub glue : List String → List String → List String
glue [] l = l
glue (x ∷ []) [] = x ∷ []
glue (x ∷ []) (y ∷ ys) = concat x y ∷ ys
glue (x ∷ x' ∷ xs) l = x ∷ glue (x' ∷ xs) l

abbrev HasPiece : List String → Type 0
HasPiece l = (x : String) × (xs : List String) × (l ≡ x ∷ xs)

push-HasPiece : (c : Char) (l : List String) → HasPiece (push_char c l)
push-HasPiece c [] = (_, _, refl)
push-HasPiece c (x ∷ xs) = (_, _, refl)

split-HasPiece : (d : ℕ) (s : String) → HasPiece (split d s)
unfolding split
split-HasPiece d String.[] = (_, _, refl)
split-HasPiece d (String.◌∷◌ c s) =
    elim (nat_eq (code c) d)
      as (λ b. HasPiece (if b then "" ∷ split d s else push_char c (split d s))) [
        | true ↦ (_, _, refl)
        | false ↦ push-HasPiece c (split d s)
      ]

glue_nil : (l : List String) → HasPiece l → glue ("" ∷ []) l ≡ l
glue_nil l (x, xs, h) = ap (glue ("" ∷ [])) h ∙ ap (λ z. z ∷ xs) (nil-append x) ∙ sym h

glue-cons : (a b : List String) → HasPiece a → glue ("" ∷ a) b ≡ "" ∷ glue a b
glue-cons a b (x, xs, h) = ap (λ l. glue ("" ∷ l) b) h ∙ sym (ap (λ l. "" ∷ glue l b) h)

glue-push : (c : Char) (a b : List String) → push_char c (glue a b) ≡ glue (push_char c a) b
glue-push c [] [] = refl
glue-push c [] (y ∷ ys) =
    ap (λ z. z ∷ ys) (sym (cons-append c "" y ∙ ap (String.◌∷◌ c) (nil-append y)))
glue-push c (x ∷ []) [] = refl
glue-push c (x ∷ []) (y ∷ ys) = ap (λ z. z ∷ ys) (sym (cons-append c x y))
glue-push c (x ∷ x' ∷ xs) b = refl

-- Splitting sends joined texts to glued pieces.
pub split-concat : (d : ℕ) (s t : String) → (split d (concat s t) ≡ glue (split d s) (split d t))
unfolding split
split-concat d String.[] t = ap (split d) (nil-append t) ∙ sym (glue_nil _ (split-HasPiece d t))
split-concat d (String.◌∷◌ c s) t =
    ap (split d) (cons-append c s t)
    ∙ ap (λ l. if nat_eq (code c) d then "" ∷ l else push_char c l) (split-concat d s t)
    ∙ (elim (nat_eq (code c) d)
        as (λ b.
          (if b
            then "" ∷ glue (split d s) (split d t)
            else push_char c (glue (split d s) (split d t)))
          ≡ glue (if b then "" ∷ split d s else push_char c (split d s)) (split d t)) [
            | true ↦ sym (glue-cons _ _ (split-HasPiece d s))
            | false ↦ glue-push c _ _
          ])

-- A separator that is no key character does not cut a text of key characters.
pub split-whole :
    (d : ℕ) (s : String)
    → ((c : ℕ) → is_key_char c ≡ true → nat_eq c d ≡ false)
    → all_key_chars s ≡ true
    → split d s ≡ s ∷ []
unfolding split all_key_chars
split-whole d String.[] apart h = refl
split-whole d (String.◌∷◌ c s) apart h =
    let (here, more) = &&-both (is_key_char (code c)) (all_key_chars s) h in
    ap (λ b. if b then "" ∷ split d s else push_char c (split d s)) (apart (code c) here)
    ∙ ap (push_char c) (split-whole d s apart more)
