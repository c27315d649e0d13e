-- ===== src/Protocol/Request/Laws.antt =====
-- What a request or an envelope that passes its checks is like.
use oshioki.Base.{
  inl, inr, ℕ, ◌≤◌, ◌*◌, ◌≡◌, ◌≢◌, ◌↔◌, refl, true, false, Option, none, some, List, [], ◌∷◌,
  String, len, count, arith, length, any, All, ltb, ◌==◌, ◌||◌, text_has_eq, eq_iff, has_control,
  is_some_and,
}
use oshioki.Base.Int.{◌<ℤ◌}
use oshioki.Base.Result.{ok, Result-cases}
use oshioki.Protocol.External.{Bytes, External}
use oshioki.Protocol.Encoding.{decode_base64url, valid_id}
use oshioki.Protocol.Device.{version_v1}
use oshioki.Protocol.Request.{Request, EnvEntry, has_bad_size, max_env_entries, validate_request}

-- A text that is there, and at most `n` bytes long.
abbrev pub IsShort : ℕ → String → Type 0
IsShort n s = (s ≢ "") × (len s ≤ n)

abbrev pub IsLabel : Option String → Type 0
IsLabel none = Unit
IsLabel (some s) = (s ≢ "") × (count s ≤ 64) × (has_control s ≡ false)

abbrev pub FitsEntry : EnvEntry → Type 0
FitsEntry e = (len e.name ≤ 256) × (len e.value ≤ 32768)

-- The bounds of a request, spelled out.
pub record HasSizes (r : Request) : Type 0 where
  pub host : IsShort 255 r.host
  pub user : IsShort 256 r.user
  pub cwd : len r.cwd ≤ 64 * 1024
  pub command : IsShort (64 * 1024) r.command
  pub argv : length r.argv ≤ 4096
  pub pid_chain : length r.pid_chain ≤ 5
  pub pid_entries : All (λ entry. len entry ≤ 512) r.pid_chain
  pub env : length r.env ≤ max_env_entries
  pub env_entries : All FitsEntry r.env
  pub session : IsLabel r.session

not_long :
    (n : ℕ) (xs : List String) → (any (λ s. ltb n (len s)) xs ≡ false) ↔ All (λ s. len s ≤ n) xs
not_long n [] = (λ h. tt, λ h. refl)
not_long n (s ∷ xs) = ground (arith, not_long n xs)

not_long_env :
    (es : List EnvEntry)
    → (any (λ (e : EnvEntry). ltb 256 (len e.name) || ltb 32768 (len e.value)) es ≡ false)
      ↔ All FitsEntry es
not_long_env [] = (λ h. tt, λ h. refl)
not_long_env (e ∷ es) = ground (arith, not_long_env es)

session_iff :
    (s : Option String)
    → ((is_some_and s (λ l. l == "" || ltb 64 (count l)) ≡ false)
        × (is_some_and s has_control ≡ false))
      ↔ IsLabel s
session_iff none = (λ h. tt, λ h. (refl, refl))
session_iff (some s) = ground (arith, eq_iff s "")

sizes_sound :
    (r : Request) → has_bad_size r ≡ false → is_some_and r.session has_control ≡ false → HasSizes r
sizes_sound r h k = record {
  host = ground (arith, eq_iff r.host "");
  user = ground (arith, eq_iff r.user "");
  cwd = ground arith;
  command = ground (arith, eq_iff r.command "");
  argv = ground arith;
  pid_chain = ground arith;
  pid_entries = (not_long 512 r.pid_chain).0 (ground arith);
  env = ground arith;
  env_entries = (not_long_env r.env).0 (ground arith);
  session = (session_iff r.session).0 (ground arith, k);
}

sizes_complete : (r : Request) → HasSizes r → has_bad_size r ≡ false
sizes_complete r h =
    let pids = (not_long 512 r.pid_chain).1 h.pid_entries in
    let envs = (not_long_env r.env).1 h.env_entries in
    let label = (session_iff r.session).1 h.session in
    ground (arith, h, pids, envs, label, eq_iff r.host "", eq_iff r.user "", eq_iff r.command "")

module _ (x : External) where
  abbrev pub DecodesTo : ℕ → String → Type 0
  DecodesTo size s = (bs : Bytes) × (decode_base64url x s ≡ ok bs) × (length bs ≡ size)

  pub record IsWellFormed (r : Request) : Type 0 where
    pub version : r.version ≡ version_v1
    pub request_id : valid_id r.request_id ≡ true
    pub nonce : DecodesTo 16 r.nonce
    pub order : r.issued_at <ℤ r.expires_at
    pub sizes : HasSizes r

  request_sound : (r : Request) → validate_request x r ≡ ok tt → IsWellFormed r
  unfolding validate_request
  request_sound r h = elim (Result-cases (decode_base64url x r.nonce)) [
    | inl (bs, decoded) ↦ record {
      version = ground (arith, decoded);
      request_id = ground (arith, decoded);
      nonce = (bs, decoded, ground (arith, decoded));
      order = ground (arith, decoded);
      sizes = sizes_sound r (ground (arith, decoded)) (ground (arith, decoded));
    }
    | inr (e, failed) ↦ absurd (ground (arith, failed))
  ]

  request_complete : (r : Request) → IsWellFormed r → validate_request x r ≡ ok tt
  unfolding validate_request
  request_complete r h =
      let (bs, decoded, size) = h.nonce in
      let sizes = sizes_complete r h.sizes in
      let label = (session_iff r.session).1 h.sizes.session in
      ground (arith, h, decoded, size, sizes, label, h.version, h.request_id, h.order)

  -- `RequestV1::validate` accepts exactly the requests of the current version with a valid id, a nonce
  -- of 16 bytes, an issuance before the expiry, every field within its bounds, and, if there is a
  -- session label, one of 1 to 64 characters with no control character among them.
  pub validate_request_iff : (r : Request) → (validate_request x r ≡ ok tt) ↔ IsWellFormed r
  validate_request_iff r = (request_sound r, request_complete r)
