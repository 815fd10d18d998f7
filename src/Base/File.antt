-- ===== src/Base/File.antt =====
-- The file system that the program reads and writes, and the paths and JSON objects that it uses.
-- A path is its text; `/` joins as pathlib does, without normalising dots and double slashes. File
-- operations succeed where the file is there: full disks and permissions are not modelled.
use ganker.Base.Tests.{if◌then◌else◌, ◌==◌, is_empty}
use Prim.Native.Nat.{ℕ}
use Prim.Native.String.{String, ◌++◌}
use mathlib.Core.Bool.{Bool, true, false, not, ◌||◌}
use mathlib.Core.Option.{Option, none, some}
use mathlib.Core.List.{List}
use Prim.Native.Char.{code}
use ganker.Base.Tests.{eqb}
use ganker.Base.Int.{ℤ, pos}
use ganker.Base.Result.{
  Error, value_error, key_error, type_error, other_error, Result, ok, err, Exec,
}
use ganker.Base.Text.{show_ℤ, int_of_text}
use ganker.Base.Dict.{Dict, lookup, insert, is_some}

-- A value inside a JSON object. `other` is a number that is no int, a list or an object, with what
-- `str` gives for it and what `int` gives, if it does not raise.
pub data Json : Type 0 where
  null : Json
  bool : Bool → Json
  int : ℤ → Json
  str : String → Json
  other : String → Option ℤ → Json

abbrev pub JsonObject : Type 0
JsonObject = Dict Json

-- What a file holds: a JSON object that `json.dumps` wrote and `json.loads` reads back, or bytes
-- that are not a JSON object.
pub data Content : Type 0 where
  json : JsonObject → Content
  raw : List ℕ → Content

abbrev pub FileSystem : Type 0
FileSystem = Dict Content

abbrev pub is_absolute : String → Bool
is_absolute String.[] = false
is_absolute (String.◌∷◌ c s) = eqb (code c) 47

-- `Path(p) / s`
infixl 65 ◌//◌
unfoldable pub ◌//◌ : String → String → String
p // s = if is_absolute s then s else p ++ ("/" ++ s)

-- `path.exists()`
abbrev pub exists : String → FileSystem → Bool
exists path fs = is_some (lookup path fs)

-- `path.write_text(json.dumps(value))`
abbrev pub write_json : String → JsonObject → Exec FileSystem (Unit {0})
write_json path value fs = (ok tt, insert path (json value) fs)

abbrev as_object : Content → Result JsonObject
as_object (json value) = ok value
as_object (raw bytes) = err (value_error "invalid JSON")

-- `json.loads(path.read_text())`
unfoldable pub read_json : String → FileSystem → Result JsonObject
read_json path fs = elim (lookup path fs) [
  | none ↦ err (other_error path)
  | some content ↦ as_object content
]

-- `value[key]`
unfoldable pub get_item : JsonObject → String → Result Json
get_item value key = elim (lookup key value) [ none ↦ err (key_error key) | some v ↦ ok v ]

-- `str(value)`
abbrev pub to_str : Json → String
to_str null = "None"
to_str (bool true) = "True"
to_str (bool false) = "False"
to_str (int n) = show_ℤ n
to_str (str s) = s
to_str (other s n) = s

abbrev or_error : Option ℤ → Error → Result ℤ
or_error none e = err e
or_error (some n) e = ok n

-- `int(value)`
abbrev pub to_int : Json → Result ℤ
to_int null = err (type_error "int() argument must not be None")
to_int (bool true) = ok (pos 1)
to_int (bool false) = ok (pos 0)
to_int (int n) = ok n
to_int (str s) = or_error (int_of_text s) (value_error "invalid literal for int()")
to_int (other s n) = or_error n (type_error "int() argument has no integer value")

-- `bool(value)`. Of the numbers that are no int, the lists and the objects, these are the false ones.
unfoldable pub truthy : Json → Bool
truthy null = false
truthy (bool b) = b
truthy (int n) = not (show_ℤ n == "0")
truthy (str s) = not (is_empty s)
truthy (other s n) = not (s == "0.0" || (s == "-0.0" || (s == "[]" || s == "{}")))
