-- ===== src/Backends/Sglang/Http.antt =====
-- `SGLangHTTPRuntime` of src/ganker/backends/sglang.py: the server process and the adapters.
--
-- The process, the clock and the HTTP client are a parameter (Host). What is printed is left out.
use Prim.Native.Char.{code}
use ganker.Base.{
  ℕ, String, ◌<>◌, Bool, true, false, ◌&&◌, ◌||◌, Option, some, none, List, is_empty, if◌then◌else◌,
  leb, eqb,
}
use ganker.Base.Int.{ℤ}
use ganker.Base.Result.{invalid_request, Result, ok, err, Exec}
use ganker.Base.Dict.{Dict, lookup}
use ganker.Base.Text.{show_ℤ}
use ganker.Base.File.{truthy, Json, null, bool, int, str, other, JsonObject, to_str}

-- src/ganker/config.py
pub record SglangBackendConfig (R : Type 0) : Type 0 where
  pub base_url : String
  pub host : String
  pub port : ℤ
  pub model_path : String
  pub served_model_name : String
  pub tensor_parallel_size : Option ℤ
  pub data_parallel_size : Option ℤ
  pub return_logprobs : Bool
  pub enable_lora : Bool
  pub max_lora_rank : ℤ
  pub launch_server : Bool
  pub startup_timeout : R
  pub request_timeout : R
  pub extra_server_args : Dict Json

-- What the runtime asks of the machine: `sys.executable`, `subprocess`, `time`, its HTTP client,
-- `repr` of a text and `str` of a float. `wait` says whether the process ended within the timeout.
pub record Host (R : Type 0) : Type 1 where
  pub World : Type 0
  pub Process : Type 0
  pub executable : String
  pub popen : List String → Exec World Process
  pub poll : Process → World → Option ℤ × World
  pub terminate : Process → Exec World (Unit {0})
  pub wait : Process → Exec World Bool
  pub kill : Process → Exec World (Unit {0})
  pub wait_ended : Process → Exec World (Unit {0})
  pub monotonic : World → R × World
  pub sleep : World → World
  pub get : String → R → Exec World (Unit {0})
  pub post_json : String → JsonObject → R → Exec World (Unit {0})
  pub repr : String → String
  pub show_float : R → String

unfoldable pub optional_str : JsonObject → String → String
optional_str payload key = elim (lookup key payload) [
  | none ↦ ""
  | some value ↦ elim value [
    | null ↦ ""
    | bool b ↦ to_str (bool b)
    | int n ↦ to_str (int n)
    | str s ↦ s
    | other s n ↦ s
  ]
]

unfoldable pub required_str : JsonObject → String → Result String
unfolding optional_str
required_str payload key =
    let value = optional_str payload key in
    if is_empty value
    then err (invalid_request ("SGLang artifact payload is missing '" <> (key <> "'")))
    else ok value

-- `str(payload.get(key) or "")`
unfoldable pub str_or_empty : JsonObject → String → String
unfolding truthy
str_or_empty payload key = elim (lookup key payload) [
  | none ↦ ""
  | some value ↦ if truthy value then to_str value else ""
]

unfoldable pub is_set : JsonObject → String → Bool
unfolding truthy
is_set payload key = elim (lookup key payload) [ none ↦ false | some value ↦ truthy value ]

-- `[A-Za-z0-9_.-]`
unfoldable pub is_safe : ℕ → Bool
is_safe c =
    (leb 65 c && leb c 90)
    || ((leb 97 c && leb c 122) || ((leb 48 c && leb c 57) || (eqb c 95 || (eqb c 46 || eqb c 45))))

-- `re.sub(r"[^A-Za-z0-9_.-]+", "-", text)`, behind an unsafe character or not
unfoldable pub replace_unsafe : Bool → String → String
unfolding is_safe
replace_unsafe after String.[] = ""
replace_unsafe after (String.◌∷◌ c s) =
    let safe = replace_unsafe false s in
    let unsafe = replace_unsafe true s in
    if is_safe (code c) then String.◌∷◌ c safe else if after then unsafe else String.◌∷◌ "-" unsafe

-- `text.lstrip(c)` and `text.rstrip(c)` for the character with the code `c`
unfoldable pub lstrip_char : ℕ → String → String
lstrip_char c String.[] = ""
lstrip_char c (String.◌∷◌ d s) =
    let rest = lstrip_char c s in if eqb (code d) c then rest else String.◌∷◌ d s

unfoldable pub rstrip_char : ℕ → String → String
rstrip_char c String.[] = ""
rstrip_char c (String.◌∷◌ d s) =
    let rest = rstrip_char c s in if is_empty rest && eqb (code d) c then "" else String.◌∷◌ d rest

unfoldable pub adapter_name : String → ℤ → String
unfolding replace_unsafe lstrip_char rstrip_char
adapter_name run_id checkpoint_version =
    let safe_run_id = rstrip_char 45 (lstrip_char 45 (replace_unsafe false run_id)) in
    (if is_empty safe_run_id then "run" else safe_run_id) <> ("-ckpt-" <> show_ℤ checkpoint_version)
