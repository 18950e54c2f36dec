-- ===== src/Prelude/Json/Injective.antt =====
-- Equal canonical texts come from equal values.
use Prim.Native.Nat.{ℕ}
use mathlib.Core.Path.{◌≡◌, refl, sym, ap, ap₂, ◌∙◌}
use mathlib.Core.Bool.{true, false}
use mathlib.Core.List.{[], ◌∷◌, ◌++◌, append_assoc, append-nil}
use native.Mathlib.Omega.{arith}
use mathlib.Core.Logic.{◌≢◌}
use converge_audit.Prelude.Tests.{◌==◌, if◌then◌else◌}
use converge_audit.Prelude.Lists.{all}
use converge_audit.Prelude.Text.{Text}
use converge_audit.Prelude.Decimal.{
  decimal, decimal_injective, decimal-all_digits, decimal-head_digit, is_digit, head_is_digit,
}
use converge_audit.Prelude.Json.{
  Json, null, num, str, arr, Items, nil, cons, stringify, stringify_items, stringify_rest,
}
use converge_audit.Prelude.Json.Quote.{quote, quote_cancel}

-- Two runs of digits that begin equal texts, and end there, are equal.
digits_cancel :
    (a b r s : Text)
    → all is_digit a ≡ true
    → all is_digit b ≡ true
    → head_is_digit r ≡ false
    → head_is_digit s ≡ false
    → a ++ r ≡ b ++ s
    → (a ≡ b) × (r ≡ s)
digits_cancel [] [] r s ha hb hr hs e = (refl, e)
digits_cancel [] (d ∷ b) r s ha hb hr hs e = absurd (clash (ap head_is_digit e))
  where
    clash : head_is_digit r ≡ is_digit d → ⊥
    clash h = ground arith
digits_cancel (c ∷ a) [] r s ha hb hr hs e = absurd (clash (ap head_is_digit e))
  where
    clash : is_digit c ≡ head_is_digit s → ⊥
    clash h = ground arith
digits_cancel (c ∷ a) (d ∷ b) r s ha hb hr hs e =
    let tails : a ++ r ≡ b ++ s = cc in
    let rest = digits_cancel a b r s (ground arith) (ground arith) hr hs tails in
    (ap₂ ◌∷◌ (cc) rest.0, rest.1)

decimal_cancel :
    (m n : ℕ) (r s : Text)
    → head_is_digit r ≡ false
    → head_is_digit s ≡ false
    → decimal m ++ r ≡ decimal n ++ s
    → (m ≡ n) × (r ≡ s)
decimal_cancel m n r s hr hs e =
    let parts =
      digits_cancel (decimal m) (decimal n) r s (decimal-all_digits m) (decimal-all_digits n) hr hs
        e in
    (decimal_injective m n parts.0, parts.1)

-- The kind of value that a text begins with, and the kind of a value.
class : Text → ℕ
class [] = 5
class (c ∷ cs) =
    if is_digit c
    then 1
    else if c == b'"'
    then 2
    else if c == b'n'
    then 3
    else if c == b'['
    then 4
    else 5

abbrev kind : Json → ℕ
kind (num n) = 1
kind (str s) = 2
kind null = 3
kind (arr xs) = 4

class-digit : (t : Text) → head_is_digit t ≡ true → class t ≡ 1
unfolding class
class-digit [] h = cc
class-digit (c ∷ cs) h = rw h

class-stringify : (v : Json) (r : Text) → class (stringify v ++ r) ≡ kind v
unfolding stringify quote class
class-stringify null r = refl
class-stringify (num n) r = class-digit (decimal n ++ r) (decimal-head_digit n r)
class-stringify (str s) r = refl
class-stringify (arr xs) r = refl

kind_eq : (v w : Json) (r s : Text) → stringify v ++ r ≡ stringify w ++ s → kind v ≡ kind w
kind_eq v w r s e = sym (class-stringify v r) ∙ ap class e ∙ class-stringify w s

-- No value begins with a closing bracket.
not-close : (v : Json) (r s : Text) → stringify v ++ r ≢ b']' ∷ s
unfolding class
not-close v r s e = absurd (clash v (sym (class-stringify v r) ∙ ap class e))
  where
    clash : (v : Json) → kind v ≡ 5 → ⊥
    clash null h = omega arith
    clash (num n) h = omega arith
    clash (str n) h = omega arith
    clash (arr n) h = omega arith

tail_eq : {c : ℕ} {a b : Text} → c ∷ a ≡ c ∷ b → a ≡ b
tail_eq h = cc

rest-head : (xs : Items) (r : Text) → head_is_digit (stringify_rest xs ++ r) ≡ false
unfolding stringify_rest
rest-head nil r = refl
rest-head (cons x xs) r = refl

null_cancel : (r s : Text) → stringify null ++ r ≡ stringify null ++ s → r ≡ s
unfolding stringify
null_cancel r s e = cc

num_cancel :
    (m n : ℕ) (r s : Text)
    → head_is_digit r ≡ false
    → head_is_digit s ≡ false
    → stringify (num m) ++ r ≡ stringify (num n) ++ s
    → (num m ≡ num n) × (r ≡ s)
unfolding stringify
num_cancel m n r s hr hs e = let parts = decimal_cancel m n r s hr hs e in (ap num parts.0, parts.1)

str_cancel :
    (a b r s : Text) → stringify (str a) ++ r ≡ stringify (str b) ++ s → (str a ≡ str b) × (r ≡ s)
unfolding stringify
str_cancel a b r s e = let parts = quote_cancel a b r s e in (ap str parts.0, parts.1)

arr_open :
    (xs ys : Items) (r s : Text)
    → stringify (arr xs) ++ r ≡ stringify (arr ys) ++ s
    → stringify_items xs ++ r ≡ stringify_items ys ++ s
unfolding stringify
arr_open xs ys r s e = tail_eq e

items_nil : (r s : Text) → stringify_items nil ++ r ≡ stringify_items nil ++ s → r ≡ s
unfolding stringify_items
items_nil r s e = cc

items_ne :
    (y : Json) (ys : Items) (r s : Text)
    → stringify_items (cons y ys) ++ s ≢ stringify_items nil ++ r
unfolding stringify_items
items_ne y ys r s e = not-close y _ _ (sym (append_assoc (stringify y) (stringify_rest ys) s) ∙ e)

items_open :
    (x y : Json) (xs ys : Items) (r s : Text)
    → stringify_items (cons x xs) ++ r ≡ stringify_items (cons y ys) ++ s
    → stringify x ++ (stringify_rest xs ++ r) ≡ stringify y ++ (stringify_rest ys ++ s)
unfolding stringify_items
items_open x y xs ys r s e =
    sym (append_assoc (stringify x) (stringify_rest xs) r)
    ∙ e
    ∙ append_assoc (stringify y) (stringify_rest ys) s

rest_nil : (r s : Text) → stringify_rest nil ++ r ≡ stringify_rest nil ++ s → r ≡ s
unfolding stringify_rest
rest_nil r s e = cc

rest_ne :
    (y : Json) (ys : Items) (r s : Text) → stringify_rest (cons y ys) ++ s ≢ stringify_rest nil ++ r
unfolding stringify_rest
rest_ne y ys r s e = cc

rest_open :
    (x y : Json) (xs ys : Items) (r s : Text)
    → stringify_rest (cons x xs) ++ r ≡ stringify_rest (cons y ys) ++ s
    → stringify x ++ (stringify_rest xs ++ r) ≡ stringify y ++ (stringify_rest ys ++ s)
unfolding stringify_rest
rest_open x y xs ys r s e =
    sym (append_assoc (stringify x) (stringify_rest xs) r)
    ∙ tail_eq e
    ∙ append_assoc (stringify y) (stringify_rest ys) s

-- What a cancellation states, and how those of an element and of the rest join.
abbrev Cancels : Json → Type 0
Cancels v =
    (w : Json) (r s : Text)
    → head_is_digit r ≡ false
    → head_is_digit s ≡ false
    → stringify v ++ r ≡ stringify w ++ s
    → (v ≡ w) × (r ≡ s)

abbrev RestCancels : Items → Type 0
RestCancels xs =
    (ys : Items) (r s : Text)
    → stringify_rest xs ++ r ≡ stringify_rest ys ++ s
    → (xs ≡ ys) × (r ≡ s)

cons_cancel :
    (x y : Json) (xs ys : Items) (r s : Text)
    → Cancels x
    → RestCancels xs
    → stringify x ++ (stringify_rest xs ++ r) ≡ stringify y ++ (stringify_rest ys ++ s)
    → (cons x xs ≡ cons y ys) × (r ≡ s)
cons_cancel x y xs ys r s first others e =
    let heads =
      first y (stringify_rest xs ++ r) (stringify_rest ys ++ s) (rest-head xs r) (rest-head ys s)
        e in
    let rest = others ys r s heads.1 in (ap₂ cons heads.0 rest.0, rest.1)

abbrev ItemsCancels : Items → Type 0
ItemsCancels xs =
    (ys : Items) (r s : Text)
    → stringify_items xs ++ r ≡ stringify_items ys ++ s
    → (xs ≡ ys) × (r ≡ s)

null_case : Cancels null
null_case null r s hr hs e = (refl, null_cancel r s e)
null_case w r s hr hs e = absurd (omega (arith, kind_eq null w r s e))

num_case : (m : ℕ) → Cancels (num m)
num_case m (num n) r s hr hs e = num_cancel m n r s hr hs e
num_case m w r s hr hs e = absurd (omega (arith, kind_eq (num m) w r s e))

str_case : (a : Text) → Cancels (str a)
str_case a (str b) r s hr hs e = str_cancel a b r s e
str_case a w r s hr hs e = absurd (omega (arith, kind_eq (str a) w r s e))

arr_case : (xs : Items) → ItemsCancels xs → Cancels (arr xs)
arr_case xs ih (arr ys) r s hr hs e =
    let parts = ih ys r s (arr_open xs ys r s e) in (ap arr parts.0, parts.1)
arr_case xs ih w r s hr hs e = absurd (omega (arith, kind_eq (arr xs) w r s e))

items_nil_case : ItemsCancels nil
items_nil_case nil r s e = (refl, items_nil r s e)
items_nil_case (cons y ys) r s e = absurd (items_ne y ys r s (sym e))

items_cons_case : (x : Json) (xs : Items) → Cancels x → RestCancels xs → ItemsCancels (cons x xs)
items_cons_case x xs first others nil r s e = absurd (items_ne x xs s r e)
items_cons_case x xs first others (cons y ys) r s e =
    cons_cancel x y xs ys r s first others (items_open x y xs ys r s e)

rest_nil_case : RestCancels nil
rest_nil_case nil r s e = (refl, rest_nil r s e)
rest_nil_case (cons y ys) r s e = absurd (rest_ne y ys r s (sym e))

rest_cons_case : (x : Json) (xs : Items) → Cancels x → RestCancels xs → RestCancels (cons x xs)
rest_cons_case x xs first others nil r s e = absurd (rest_ne x xs s r e)
rest_cons_case x xs first others (cons y ys) r s e =
    cons_cancel x y xs ys r s first others (rest_open x y xs ys r s e)

-- A value, and the elements of an array, can be told from any text that follows them.
mutual
  value_cancel : (v : Json) → Cancels v
  value_cancel null = null_case
  value_cancel (num m) = num_case m
  value_cancel (str a) = str_case a
  value_cancel (arr xs) = arr_case xs (items_cancel xs)

  items_cancel : (xs : Items) → ItemsCancels xs
  items_cancel nil = items_nil_case
  items_cancel (cons x xs) = items_cons_case x xs (value_cancel x) (rest_cancel xs)

  rest_cancel : (xs : Items) → RestCancels xs
  rest_cancel nil = rest_nil_case
  rest_cancel (cons x xs) = rest_cons_case x xs (value_cancel x) (rest_cancel xs)

-- The canonical text of a value determines the value.
pub stringify_injective : (v w : Json) → stringify v ≡ stringify w → v ≡ w
stringify_injective v w e =
    (value_cancel v w [] [] refl refl
      (append-nil (stringify v) ∙ e ∙ sym (append-nil (stringify w)))).0
