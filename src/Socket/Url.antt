-- ===== src/Socket/Url.antt =====
-- The base addresses of frontend/src/hooks/useWebSocket.ts and frontend/src/api/client.ts, over code points: one
-- trailing slash is taken off, and the suffix (`/ws`, `/api`) is added where it is missing.
use syncwatch.Shared.{
  ℕ, ◌≡◌, refl, sym, ap, subst, ◌∙◌, Bool, true, false, List, [], ◌∷◌, ◌++◌, append_assoc, arith,
  ◌==◌, ◌&&◌, if◌then◌else◌, Bool-cases, inl, inr,
}

-- `s.replace(/\/$/, '')`
pub trim_slash : List ℕ → List ℕ
trim_slash [] = []
trim_slash (c ∷ []) = if c == b'/' then [] else c ∷ []
trim_slash (c ∷ d ∷ s) = c ∷ trim_slash (d ∷ s)

pub same : List ℕ → List ℕ → Bool
same [] [] = true
same (a ∷ s) (b ∷ t) = a == b && same s t
same _ _ = false

-- `s.endsWith(t)`
pub ends_with : List ℕ → List ℕ → Bool
unfolding same
ends_with [] t = same [] t
ends_with (c ∷ s) t = if same (c ∷ s) t then true else ends_with s t

pub with_suffix : List ℕ → List ℕ → List ℕ
unfolding trim_slash ends_with
with_suffix suffix raw =
    let trimmed = trim_slash raw in if ends_with trimmed suffix then trimmed else trimmed ++ suffix

-- `/ws` and `/api`
abbrev pub ws_suffix : List ℕ
ws_suffix = b'/' ∷ b'w' ∷ b's' ∷ []

abbrev pub api_suffix : List ℕ
api_suffix = b'/' ∷ b'a' ∷ b'p' ∷ b'i' ∷ []

-- The texts of the addresses: `wss://`, `ws://`, `?ticket=`.
abbrev wss_scheme : List ℕ
wss_scheme = b'w' ∷ b's' ∷ b's' ∷ b':' ∷ b'/' ∷ b'/' ∷ []

abbrev ws_scheme : List ℕ
ws_scheme = b'w' ∷ b's' ∷ b':' ∷ b'/' ∷ b'/' ∷ []

abbrev ticket_query : List ℕ
ticket_query = b'?' ∷ b't' ∷ b'i' ∷ b'c' ∷ b'k' ∷ b'e' ∷ b't' ∷ b'=' ∷ []

-- `normalizeApiBaseUrl(rawUrl)`; an empty text is false, as an absent one is.
pub normalize_api_base_url : List ℕ → List ℕ
unfolding with_suffix
normalize_api_base_url [] = api_suffix
normalize_api_base_url (c ∷ raw) = with_suffix api_suffix (c ∷ raw)

-- `normalizeWsBaseUrl(rawUrl)` on a page of the host, served over `https:` or not.
pub normalize_ws_base_url : (is_https : Bool) (host raw : List ℕ) → List ℕ
unfolding with_suffix
normalize_ws_base_url is_https host [] =
    (if is_https then wss_scheme else ws_scheme) ++ (host ++ ws_suffix)
normalize_ws_base_url is_https host (c ∷ raw) = with_suffix ws_suffix (c ∷ raw)

-- `buildWsUrl(roomId, ticket)`, over `encodeURIComponent`.
pub build_ws_url :
    (encode : List ℕ → List ℕ) (is_https : Bool) (host raw room ticket : List ℕ) → List ℕ
unfolding normalize_ws_base_url
build_ws_url encode is_https host raw room ticket =
    normalize_ws_base_url is_https host raw ++ (b'/' ∷ room ++ (ticket_query ++ encode ticket))

same_iff : (s t : List ℕ) → same s t ≡ true → s ≡ t
unfolding same
same_iff [] [] h = refl
same_iff [] (b ∷ t) h = cc
same_iff (a ∷ s) [] h = cc
same_iff (a ∷ s) (b ∷ t) h = ground (arith, same_iff s t)

same_refl : (s : List ℕ) → same s s ≡ true
unfolding same
same_refl [] = refl
same_refl (a ∷ s) = ground (arith, same_refl s)

ends_with-append : (s t : List ℕ) → ends_with (s ++ t) t ≡ true
unfolding ends_with
ends_with-append [] [] = refl
ends_with-append [] (b ∷ t) = ground (arith, same_refl (b ∷ t))
ends_with-append (a ∷ s) t = ground (arith, ends_with-append s t)

-- The address always ends in the suffix.
with_suffix-ends : (suffix raw : List ℕ) → ends_with (with_suffix suffix raw) suffix ≡ true
unfolding with_suffix
with_suffix-ends suffix raw = ground (arith, ends_with-append (trim_slash raw) suffix)

ends_with_split : (s t : List ℕ) → ends_with s t ≡ true → (front : List ℕ) × (s ≡ front ++ t)
unfolding ends_with
ends_with_split [] t h = ([], same_iff [] t h)
ends_with_split (c ∷ s) t h = elim (Bool-cases (same (c ∷ s) t)) [
  | inl whole ↦ ([], same_iff (c ∷ s) t whole)
  | inr part ↦ let (front, e) = ends_with_split s t (ground arith) in (c ∷ front, ap (◌∷◌ c) e)
]

trim_slash-append :
    (s : List ℕ) (c : ℕ) (t : List ℕ) → trim_slash (s ++ c ∷ t) ≡ s ++ trim_slash (c ∷ t)
unfolding trim_slash
trim_slash-append [] c t = refl
trim_slash-append (a ∷ []) c t = refl
trim_slash-append (a ∷ b ∷ s) c t = ap (◌∷◌ a) (trim_slash-append (b ∷ s) c t)

-- A suffix whose last character is no slash is left alone.
with_suffix_fixed :
    (c : ℕ) (t s : List ℕ)
    → trim_slash (c ∷ t) ≡ c ∷ t
    → ends_with s (c ∷ t) ≡ true
    → with_suffix (c ∷ t) s ≡ s
unfolding with_suffix
with_suffix_fixed c t s fixed h =
    let (front, e) = ends_with_split s (c ∷ t) h in
    let trimmed : trim_slash s ≡ s =
      ap trim_slash e ∙ trim_slash-append front c t ∙ ap (◌++◌ front) fixed ∙ sym e in
    rw (trimmed, h)

api_fixed : (s : List ℕ) → ends_with s api_suffix ≡ true → normalize_api_base_url s ≡ s
unfolding normalize_api_base_url
api_fixed [] h = cc
api_fixed (c ∷ s) h = with_suffix_fixed b'/' (b'a' ∷ b'p' ∷ b'i' ∷ []) (c ∷ s) refl h

ws_fixed :
    (is_https : Bool) (host s : List ℕ)
    → ends_with s ws_suffix ≡ true
    → normalize_ws_base_url is_https host s ≡ s
unfolding normalize_ws_base_url
ws_fixed is_https host [] h = cc
ws_fixed is_https host (c ∷ s) h = with_suffix_fixed b'/' (b'w' ∷ b's' ∷ []) (c ∷ s) refl h

api_ends : (raw : List ℕ) → ends_with (normalize_api_base_url raw) api_suffix ≡ true
unfolding normalize_api_base_url
api_ends [] = refl
api_ends (c ∷ raw) = with_suffix-ends api_suffix (c ∷ raw)

ws_ends :
    (is_https : Bool) (host raw : List ℕ)
    → ends_with (normalize_ws_base_url is_https host raw) ws_suffix ≡ true
unfolding normalize_ws_base_url
ws_ends is_https host [] =
    subst (λ s. ends_with s ws_suffix ≡ true)
      (append_assoc (if is_https then wss_scheme else ws_scheme) host ws_suffix)
      (ends_with-append ((if is_https then wss_scheme else ws_scheme) ++ host) ws_suffix)
ws_ends is_https host (c ∷ raw) = with_suffix-ends ws_suffix (c ∷ raw)

-- The base addresses of the API and of the socket end in `/api` and `/ws` whatever is configured, and
-- normalising either again changes nothing.
pub base_urls_stable :
    (is_https : Bool) (host raw : List ℕ)
    → let api = normalize_api_base_url raw in
      let ws = normalize_ws_base_url is_https host raw in
      (ends_with api api_suffix ≡ true)
      × (normalize_api_base_url api ≡ api)
      × (ends_with ws ws_suffix ≡ true)
      × (normalize_ws_base_url is_https host ws ≡ ws)
base_urls_stable is_https host raw = (
  api_ends raw,
  api_fixed _ (api_ends raw),
  ws_ends is_https host raw,
  ws_fixed is_https host _ (ws_ends is_https host raw),
)
