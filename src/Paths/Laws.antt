-- ===== src/Paths/Laws.antt =====
-- The path of a plain file name lies directly in the base directory, so plain names do not meet.
use patrizio_bot.Prelude.{
  ◌≡◌, refl, sym, ap, ◌∙◌, Bool, true, false, ◌||◌, List, [], ◌∷◌, ◌++◌, ◌==◌, any, append-nil,
  append_assoc, arith, if◌then◌else◌,
}
use patrizio_bot.Text.{Text, codes, text_eq, is_empty}
use patrizio_bot.Paths.{
  slash, put_element, elements, before_element, print_elements, is_rooted, clean, join_path,
}

-- A file name as Unix knows it: not empty, without a slash, and neither "." nor "..".
pub record IsPlain (name : Text) : Type 0 where
  pub not_empty : is_empty name ≡ false
  pub no_slash : any (λ c. c == slash) name ≡ false
  pub not_dot : text_eq name (codes ".") ≡ false
  pub not_dots : text_eq name (codes "..") ≡ false

or_false : (a b : Bool) → (a || b) ≡ false → (a ≡ false) × (b ≡ false)
or_false false b h = (refl, h)
or_false true b h = cc

put_element-plain :
    (rooted : Bool) (name : Text) (es : List Text)
    → IsPlain name
    → put_element rooted name es ≡ name ∷ es
unfolding put_element
put_element-plain rooted name es p = rw p.not_empty (rw p.not_dot (rw p.not_dots refl))

elements-no_slash :
    (rooted : Bool) (e : Text) (es : List Text) (s : Text)
    → any (λ c. c == slash) s ≡ false
    → elements rooted e es s ≡ put_element rooted (e ++ s) es
unfolding elements
elements-no_slash rooted e es [] h = ap (λ x. put_element rooted x es) (sym (append-nil e))
elements-no_slash rooted e es (c ∷ s) h =
    let k = or_false (c == slash) (any (λ x. x == slash) s) h in
    rw k.0 (
      elements-no_slash rooted (e ++ c ∷ []) es s k.1
      ∙ ap (λ x. put_element rooted x es) (append_assoc e (c ∷ []) s))

elements-append :
    (rooted : Bool) (e : Text) (es : List Text) (s t : Text)
    → elements rooted e es (s ++ slash ∷ t) ≡ elements rooted [] (elements rooted e es s) t
unfolding elements
elements-append rooted e es [] t = refl
elements-append rooted e es (c ∷ s) t =
    elements-append rooted (if c == slash then [] else e ++ c ∷ [])
      (if c == slash then put_element rooted e es else es) s t

-- What the path of a name has before the name.
abbrev directory : Text → Text
directory [] = []
directory (b ∷ base) =
    before_element (is_rooted (b ∷ base)) (elements (is_rooted (b ∷ base)) [] [] (b ∷ base))

print_elements-plain :
    (rooted : Bool) (name : Text) (es : List Text)
    → print_elements rooted (name ∷ es) ≡ before_element rooted es ++ name
unfolding print_elements
print_elements-plain true name es = refl
print_elements-plain false name es = refl

elements-plain :
    (rooted : Bool) (es : List Text) (name : Text)
    → IsPlain name
    → elements rooted [] es name ≡ name ∷ es
elements-plain rooted es name p =
    elements-no_slash rooted [] es name p.no_slash ∙ put_element-plain rooted name es p

true-ne : {A : Type 0} → true ≡ false → A
true-ne e = cc

pub join_path-plain :
    (base name : Text) → IsPlain name → join_path base name ≡ directory base ++ name
unfolding join_path clean before_element
join_path-plain base [] p = true-ne p.not_empty
join_path-plain [] (c ∷ name) p =
    let rooted : (c == slash) ≡ false =
      (or_false (c == slash) (any (λ x. x == slash) name) p.no_slash).0 in
    ap (print_elements (c == slash)) (elements-plain (c == slash) [] (c ∷ name) p)
    ∙ print_elements-plain (c == slash) (c ∷ name) []
    ∙ ap (λ r. before_element r [] ++ c ∷ name) rooted
join_path-plain (b ∷ base) (c ∷ name) p =
    let rooted = b == slash in
    ap (print_elements rooted) (
      elements-append rooted [] [] (b ∷ base) (c ∷ name)
      ∙ elements-plain rooted (elements rooted [] [] (b ∷ base)) (c ∷ name) p)
    ∙ print_elements-plain rooted (c ∷ name) (elements rooted [] [] (b ∷ base))

text_eq-append : (s a b : Text) → text_eq (s ++ a) (s ++ b) ≡ text_eq a b
unfolding text_eq
text_eq-append [] a b = refl
text_eq-append (c ∷ s) a b = ground (arith, text_eq-append s a b)

-- Two plain names have one path only if they are one name.
pub text_eq-join_path :
    (base a b : Text)
    → IsPlain a
    → IsPlain b
    → text_eq (join_path base a) (join_path base b) ≡ text_eq a b
text_eq-join_path base a b p q =
    rw (join_path-plain base a p)
      (rw (join_path-plain base b q) (text_eq-append (directory base) a b))
