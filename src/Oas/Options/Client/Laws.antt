-- ===== src/Oas/Options/Client/Laws.antt =====
-- The server's URL of a new client.
use flowhand.Base.{
  ◌≡◌, refl, ap, ℕ, zero, suc, true, false, List, [], ◌∷◌, ◌++◌, nat_eq, Bool-cases, inl, inr,
  arith, ◌&&◌, if◌then◌else◌,
}
use flowhand.Failure.{ok}
use flowhand.Oas.Router.{Bytes, Url, slash, is_empty}
use flowhand.Oas.Options.{Otel}
use flowhand.Oas.Options.Client.{
  trim_right, ClientOption, Client, new_client, new_client_config, base_client,
}

-- The last byte is no slash.
abbrev pub IsTrimmed : Bytes → Type 0
IsTrimmed [] = Unit
IsTrimmed (c ∷ []) = nat_eq c slash ≡ false
IsTrimmed (c ∷ d ∷ s) = IsTrimmed (d ∷ s)

abbrev pub slashes : ℕ → Bytes
slashes zero = []
slashes (suc n) = slash ∷ slashes n

-- A text as a trimmed one and its trailing slashes.
abbrev pub Trims : Bytes → Bytes → Type 0
Trims s t = IsTrimmed t × ((n : ℕ) × (s ≡ t ++ slashes n))

slash_of : (c : ℕ) → nat_eq c slash ≡ true → c ≡ slash
slash_of c h = ground arith

trim_right-Trims : (s : Bytes) → Trims s (trim_right s)
unfolding trim_right
trim_right-Trims [] = (tt, (0, refl))
trim_right-Trims (c ∷ s) = with_byte (trim_right s) (trim_right-Trims s)
  where
    with_byte :
        (t : Bytes) → Trims s t → Trims (c ∷ s) (if is_empty t && nat_eq c slash then [] else c ∷ t)
    with_byte [] (_, (n, same)) = elim (Bool-cases (nat_eq c slash)) [
      | inl e ↦ rw e (tt, (suc n, rw (slash_of c e) (ap (λ r. slash ∷ r) same)))
      | inr other ↦ rw other (other, (n, ap (λ r. c ∷ r) same))
    ]
    with_byte (d ∷ t) (trimmed, (n, same)) = (trimmed, (n, ap (λ r. c ∷ r) same))

-- `NewClient` of a URL succeeds if the three instruments can be made of its meter, and the URL it keeps
-- has the path and the raw path without their trailing slashes, and nothing else removed.
pub new_client-Trims :
    (O : Otel) (HttpClient : Type 0) (default_client : HttpClient) (u : Url)
    (opts : List (ClientOption O HttpClient)) (q e : O.Counter) (d : O.Histogram)
    → O.client_request_count_counter (new_client_config O HttpClient default_client opts).otel.meter
      ≡ ok q
    → O.client_errors_count_counter (new_client_config O HttpClient default_client opts).otel.meter
      ≡ ok e
    → O.client_duration_histogram (new_client_config O HttpClient default_client opts).otel.meter
      ≡ ok d
    → (c : Client O HttpClient) × (new_client O HttpClient default_client (ok u) opts ≡ ok c)
      × Trims u.path c.server_url.path
      × Trims u.raw_path c.server_url.raw_path
unfolding new_client base_client
new_client-Trims O HttpClient default_client u opts q e d requests errors duration =
    let cfg = new_client_config O HttpClient default_client opts in
    (
      record {
        server_url = record { path = trim_right u.path; raw_path = trim_right u.raw_path };
        base = record { cfg = cfg; requests = q; errors = e; duration = d };
      },
      rw requests (rw errors (rw duration refl)),
      trim_right-Trims u.path,
      trim_right-Trims u.raw_path,
    )
