-- ===== src/Base/Json.antt =====
-- The values of Python's `json`: what the columns of type JSON hold. A number that is no integer is
-- kept as its text.
use Prim.Native.String.{String}
use mathlib.Core.Path.{◌≡◌, refl}
use mathlib.Core.Bool.{Bool}
use mathlib.Core.List.{List, [], ◌∷◌, map}
use juris_ai.Base.Tests.{◌==◌, if◌then◌else◌}
use juris_ai.Base.Result.{Result, ok, err, ◌>>=◌}
use juris_ai.Base.Int.{ℤ}

mutual
  pub data Json : Type 0 where
    null : Json
    bool : Bool → Json
    num : ℤ → Json
    float : String → Json
    str : String → Json
    arr : Items → Json
    obj : Fields → Json

  pub data Items : Type 0 where
    nil : Items
    cons : Json → Items → Items

  pub data Fields : Type 0 where
    end : Fields
    field : String → Json → Fields → Fields

-- The exceptions of reading a value: a missing key, a name that is no member of an enumeration, and
-- a value of another type than the reader's annotation says.
pub data JsonError : Type 0 where
  missing_key bad_value : String → JsonError
  bad_type : JsonError

abbrev pub Parsed : Type 0 → Type 0
Parsed A = Result JsonError A

-- A list of values
abbrev pub items : List Json → Items
items [] = nil
items (v ∷ vs) = cons v (items vs)

abbrev pub find_field : String → Fields → Parsed Json
find_field k end = err (missing_key k)
find_field k (field j v rest) = if j == k then ok v else find_field k rest

-- data[k]
abbrev pub item : String → Json → Parsed Json
item k (obj fields) = find_field k fields
item k _ = err bad_type

abbrev pub as_str : Json → Parsed String
as_str (str s) = ok s
as_str _ = err bad_type

abbrev pub as_int : Json → Parsed ℤ
as_int (num n) = ok n
as_int _ = err bad_type

-- [read(x) for x in items]
abbrev pub each_item : {A : Type 0} → (Json → Parsed A) → Items → Parsed (List A)
each_item read nil = ok []
each_item read (cons v vs) = read v >>= λ a. each_item read vs >>= λ rest. ok (a ∷ rest)

abbrev pub each : {A : Type 0} → (Json → Parsed A) → Json → Parsed (List A)
each read (arr vs) = each_item read vs
each read _ = err bad_type

-- What is written one by one is read one by one.
pub each_item-items :
    {A : Type 0} (read : Json → Parsed A) (write : A → Json)
    → ((a : A) → read (write a) ≡ ok a)
    → (xs : List A) → each_item read (items (map write xs)) ≡ ok xs
each_item-items read write h [] = refl
each_item-items read write h (x ∷ xs) = rw (h x, each_item-items read write h xs) refl
