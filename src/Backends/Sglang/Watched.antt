-- ===== src/Backends/Sglang/Watched.antt =====
-- A machine under watch: what the runtime of src/ganker/backends/sglang.py has asked of it.
use ganker.Base.{String, Bool, false, ◌&&◌, Option, some, none, List, [], ◌∷◌, ◌==◌, if◌then◌else◌}
use ganker.Base.Int.{ℤ}
use ganker.Base.Result.{Result, ok, err}
use ganker.Base.Dict.{lookup}
use ganker.Base.File.{Json, str, JsonObject}
use ganker.Backends.Sglang.Http.{Host}

-- The latest `Popen` that returned, with its command; the POSTs that returned since then, the latest
-- first; and the latest `poll`, with its answer.
pub record Watched (W P : Type 0) : Type 0 where
  pub inner : W
  pub launched : Option (P × List String)
  pub posts : List (String × JsonObject)
  pub polled : Option (P × Option ℤ)

-- What is seen of a `Popen` and of a POST.
abbrev pub after_popen : {W P : Type 0} → List String → Result P → W → Watched W P → Watched W P
after_popen cmd (ok p) w seen = record {
  inner = w;
  launched = some (p, cmd);
  posts = [];
  polled = seen.polled;
}
after_popen cmd (err e) w seen = record seen { inner = w }

abbrev pub after_post :
    {W P : Type 0} → String → JsonObject → Result (Unit {0}) → W → Watched W P → Watched W P
after_post url body (ok done) w seen = record seen { inner = w; posts = (url, body) ∷ seen.posts }
after_post url body (err e) w seen = record seen { inner = w }

-- The machine with the watch, which does what the machine does.
abbrev pub watched : {R : Type 0} → Host R → Host R
watched {R} host = record {
  World = Watched host.World host.Process;
  Process = host.Process;
  executable = host.executable;
  popen = λ cmd seen. let (r, w) = host.popen cmd seen.inner in (r, after_popen cmd r w seen);
  poll = λ p seen.
      let (r, w) = host.poll p seen.inner in (r, record seen { inner = w; polled = some (p, r) });
  terminate = λ p seen. let (r, w) = host.terminate p seen.inner in (r, record seen { inner = w });
  wait = λ p seen. let (r, w) = host.wait p seen.inner in (r, record seen { inner = w });
  kill = λ p seen. let (r, w) = host.kill p seen.inner in (r, record seen { inner = w });
  wait_ended =
      λ p seen. let (r, w) = host.wait_ended p seen.inner in (r, record seen { inner = w });
  monotonic = λ seen. let (r, w) = host.monotonic seen.inner in (r, record seen { inner = w });
  sleep = λ seen. record seen { inner = host.sleep seen.inner };
  get = λ url t seen. let (r, w) = host.get url t seen.inner in (r, record seen { inner = w });
  post_json = λ url body t seen.
      let (r, w) = host.post_json url body t seen.inner in (r, after_post url body r w seen);
  repr = host.repr;
  show_float = host.show_float;
}

abbrev is_str : String → Option Json → Bool
is_str name (some (str s)) = s == name
is_str name other = false

-- The body of the latest POST to a URL for an adapter of a name.
abbrev pub adapter_of : String → String → List (String × JsonObject) → Option JsonObject
adapter_of url name [] = none
adapter_of url name ((u, body) ∷ posts) =
    if u == url && is_str name (lookup "lora_name" body)
    then some body
    else adapter_of url name posts

abbrev pub adapter_body : String → String → JsonObject
adapter_body name path = ("lora_name", str name) ∷ ("lora_path", str path) ∷ []
