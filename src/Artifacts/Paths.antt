-- ===== src/Artifacts/Paths.antt =====
-- The paths of the files that the store writes are different.
use text.Mathlib.TextLemmas.{
  append_cancel_left, append_cancel_right, append_assoc, nil-append, cons-append,
}
use Prim.Native.Char.{Char, code}
use ganker.Base.{ℕ, String, ◌<>◌, ◌≡◌, ◌≢◌, sym, ap, ◌∙◌, false, arith}
use ganker.Base.Int.{ℤ}
use ganker.Base.Text.{show_ℤ}
use ganker.Base.Text.Decimal.{show_ℤ-injective}
use ganker.Base.File.{◌//◌, is_absolute}
use ganker.Artifacts.{payload_name, manifest_name}

abbrev first_code : String → ℕ
first_code String.[] = 0
first_code (String.◌∷◌ c s) = code c

abbrev last_code : String → ℕ
last_code String.[] = 0
last_code (String.◌∷◌ c String.[]) = code c
last_code (String.◌∷◌ c (String.◌∷◌ d s)) = last_code (String.◌∷◌ d s)

last_code-append : (s : String) (c : Char) → last_code (s <> String.◌∷◌ c "") ≡ code c
last_code-append String.[] c = rw nil-append
last_code-append (String.◌∷◌ d String.[]) c = rw (cons-append, nil-append)
last_code-append (String.◌∷◌ d (String.◌∷◌ e s)) c =
    let ih = last_code-append (String.◌∷◌ e s) c in
    rw (cons-append, cons-append) (rw cons-append at ih)

//-relative : (p s : String) → is_absolute s ≡ false → p // s ≡ p <> ("/" <> s)
unfolding ◌//◌
//-relative p s h = rw h

pub //-injective :
    (p s t : String) → is_absolute s ≡ false → is_absolute t ≡ false → p // s ≡ p // t → s ≡ t
//-injective p s t h k e =
    append_cancel_left "/" s t
      (append_cancel_left p ("/" <> s) ("/" <> t) (sym (//-relative p s h) ∙ e ∙ //-relative p t k))

payload_name-cons :
    (v : ℤ) → payload_name v ≡ String.◌∷◌ "c" ("heckpoint-" <> (show_ℤ v <> ".payload.json"))
unfolding payload_name
payload_name-cons v = cons-append "c" "heckpoint-" (show_ℤ v <> ".payload.json")

manifest_name-cons :
    (v : ℤ) → manifest_name v ≡ String.◌∷◌ "c" ("heckpoint-" <> (show_ℤ v <> ".manifest.json"))
unfolding manifest_name
manifest_name-cons v = cons-append "c" "heckpoint-" (show_ℤ v <> ".manifest.json")

pub payload_relative : (v : ℤ) → is_absolute (payload_name v) ≡ false
payload_relative v = rw payload_name-cons

pub manifest_relative : (v : ℤ) → is_absolute (manifest_name v) ≡ false
manifest_relative v = rw manifest_name-cons

pub payload-ne-latest : (v : ℤ) → payload_name v ≢ "latest.json"
payload-ne-latest v e = absurd (omega (arith, ap first_code (sym (payload_name-cons v) ∙ e)))

pub manifest-ne-latest : (v : ℤ) → manifest_name v ≢ "latest.json"
manifest-ne-latest v e = absurd (omega (arith, ap first_code (sym (manifest_name-cons v) ∙ e)))

last_payload : (s : String) → s <> ".payload" ≡ (s <> ".payloa") <> "d"
last_payload s = sym (append_assoc s ".payloa" "d")

last_manifest : (s : String) → s <> ".manifest" ≡ (s <> ".manifes") <> "t"
last_manifest s = sym (append_assoc s ".manifes" "t")

pub payload-ne-manifest : (v w : ℤ) → payload_name v ≢ manifest_name w
unfolding payload_name manifest_name
payload-ne-manifest v w e =
    let middle =
      append_cancel_left "checkpoint-" (show_ℤ v <> ".payload.json") (show_ℤ w <> ".manifest.json")
        e in
    let names = append_cancel_right (show_ℤ v <> ".payload") (show_ℤ w <> ".manifest") ".json" (
      append_assoc (show_ℤ v) ".payload" ".json"
      ∙ middle
      ∙ sym (append_assoc (show_ℤ w) ".manifest" ".json")) in
    absurd (
      omega (
        arith,
        sym (last_code-append (show_ℤ v <> ".payloa") "d")
            ∙ ap last_code (sym (last_payload (show_ℤ v)) ∙ names ∙ last_manifest (show_ℤ w))
            ∙ last_code-append (show_ℤ w <> ".manifes") "t",
      ))

-- Different versions have different payload files.
pub payload_name-injective : (v w : ℤ) → payload_name v ≡ payload_name w → v ≡ w
unfolding payload_name
payload_name-injective v w e = show_ℤ-injective v w (
    append_cancel_right (show_ℤ v) (show_ℤ w) ".payload.json"
      (append_cancel_left "checkpoint-" _ _ e))
