-- ===== src/K8s/AppProtect/LogDestination.antt =====
-- internal/k8s/appprotect/app_protect_resources.go: the values of the annotations of App Protect.
use Prim.Native.Nat.{◌^◌}
use Prim.Native.String.{◌++◌}
use aspenmesh_k3s_multiclust.Prelude.{
  ℕ, zero, suc, ◌<◌, String, ◌≡◌, ◌↔◌, refl, sym, ap, ◌∙◌, ◌⊎◌, inl, inr, Bool, true, false, not,
  ◌||◌, Option, none, some, some_inj, List, [], ◌∷◌, ◌==◌, eq_iff, arith, ltb, Bool-cases, ◌>>=◌,
  if◌then◌else◌,
}
use aspenmesh_k3s_multiclust.Prelude.Texts.{concat}
use aspenmesh_k3s_multiclust.Prelude.Integers.{ℤ, pos, ltb_int}
use aspenmesh_k3s_multiclust.Prelude.Decimal.{
  atoi, atoi-show_natural, show_int, show_natural, show_natural-free,
}
use aspenmesh_k3s_multiclust.Prelude.Strings.{contains, split, join}
use aspenmesh_k3s_multiclust.Prelude.Strings.Split.{is_free, is_free-append, split-join}

-- The regular expressions logDstEx and logDstFileEx, and whether net.ParseIP reads a text.
pub record LogDestinationLibrary : Type 0 where
  pub matches_log_destination : String → Bool
  pub matches_log_file : String → Bool
  pub parses_ip : String → Bool

-- The access to a slice; `none` is the panic out of range.
abbrev chunk : ℕ → List String → Option String
chunk n [] = none
chunk zero (c ∷ chunks) = some c
chunk (suc n) (c ∷ chunks) = chunk n chunks

module _ (lib : LogDestinationLibrary) where
  abbrev ip_error : String → Option String
  ip_error ip =
      if ip == "localhost"
      then none
      else (if lib.parses_ip ip
          then none
          else some (concat ("Error parsing host: " ∷ ip ∷ " is not a valid ip address" ∷ [])))

  abbrev syslog_error : List String → ℤ → Option (Option String)
  syslog_error chunks port =
      if ltb_int (pos 65535) port || ltb_int port (pos 1)
      then some
          (some (concat ("Error parsing port: " ∷ show_int port ∷ " not a valid port number" ∷ [])))
      else (chunk 1 chunks >>= λ server. chunk 1 (split b'=' server) >>= λ ip. some (ip_error ip))

  -- An error, or none; `none` of the outer type is a panic.
  unfoldable pub validate_app_protect_log_destination : String → Option (Option String)
  validate_app_protect_log_destination destination =
      if not (lib.matches_log_destination destination)
      then some (
          some (
            concat (
              "Error parsing App Protect Log config: Destination must follow format: "
              ∷ "syslog:server=<ip-address | localhost>:<port> or stderr or absolute path to file"
              ∷ " Log Destination did not follow format" ∷ [])))
      else (if destination == "stderr"
          then some none
          else (if lib.matches_log_file destination
              then some none
              else (chunk 2 (split b':' destination) >>= λ port.
                  syslog_error (split b':' destination) (atoi port))))

unfoldable pub parse_resource_reference_annotation : (namespace annotation : String) → String
parse_resource_reference_annotation namespace annotation =
    if not (contains annotation "/") then concat (namespace ∷ "/" ∷ annotation ∷ []) else annotation

-- syslog:server=host:port
abbrev pub syslog_server : (host : String) → (port : ℕ) → String
syslog_server host port =
    join ":" ("syslog" ∷ join "=" ("server" ∷ host ∷ []) ∷ show_natural port ∷ [])

module _ (host : String) (port : ℕ) (no_colon : is_free b':' host ≡ true) where
  server-free : is_free b':' (join "=" ("server" ∷ host ∷ [])) ≡ true
  unfolding join is_free
  server-free =
      is_free-append b':' "server" ("=" ++ host) refl (is_free-append b':' "=" host refl no_colon)

  split-syslog_server :
      split b':' (syslog_server host port)
      ≡ "syslog" ∷ join "=" ("server" ∷ host ∷ []) ∷ show_natural port ∷ []
  unfolding is_free
  split-syslog_server =
      split-join b':' ":" "syslog" (join "=" ("server" ∷ host ∷ []) ∷ show_natural port ∷ []) refl
        refl (rw (server-free, show_natural-free b':' port (inr (omega arith))) refl)

  split-stderr : split b':' "stderr" ≡ "stderr" ∷ []
  unfolding split
  split-stderr = refl

  syslog_server-not_stderr : (syslog_server host port == "stderr") ≡ false
  syslog_server-not_stderr = by_cases (Bool-cases (syslog_server host port == "stderr"))
    where
      by_cases :
          ((syslog_server host port == "stderr") ≡ true)
            ⊎ ((syslog_server host port == "stderr") ≡ false)
          → (syslog_server host port == "stderr") ≡ false
      by_cases (inr e) = e
      by_cases (inl e) =
          cc (sym split-syslog_server ∙ ap (split b':') ((eq_iff _ "stderr").0 e) ∙ split-stderr)

  split-server :
      is_free b'=' host ≡ true → split b'=' (join "=" ("server" ∷ host ∷ [])) ≡ "server" ∷ host ∷ []
  unfolding is_free
  split-server no_sign = split-join b'=' "=" "server" (host ∷ []) refl refl (rw no_sign refl)

-- The test of the port, before what is found otherwise.
bounded :
    (port : ℕ) (message : String) (found : Option String) (Right : Type 0)
    → (found ≡ none) ↔ Right
    → ((if ltb 65535 port || ltb port 1 then some (some message) else some found) ≡ some none)
      ↔ ((0 < port) × (port < 65536) × Right)
bounded port message found Right iff = elim (Bool-cases (ltb 65535 port || ltb port 1)) [
  | inl e ↦ ((λ h. cc (rw e at h)), λ (positive, small, right). absurd (ground arith))
  | inr e ↦ (
    (λ h. (ground arith, ground arith, iff.0 (some_inj (rw e at h)))),
    λ (positive, small, right). rw e (ap some (iff.1 right)),
  )
]

module _ (lib : LogDestinationLibrary) (host : String) (port : ℕ) where
  ip_error_lem : (ip_error lib host ≡ none) ↔ ((host ≡ "localhost") ⊎ (lib.parses_ip host ≡ true))
  ip_error_lem = elim (Bool-cases (host == "localhost")) [
    | inl e ↦ ((λ h. inl ((eq_iff host "localhost").0 e)), λ h. rw e)
    | inr e ↦ elim (Bool-cases (lib.parses_ip host)) [
      | inl p ↦ ((λ h. inr p), λ h. rw (e, p))
      | inr p ↦ (
        (λ h. cc (rw (e, p) at h)),
        λ h. elim h [ inl same ↦ cc ((eq_iff host "localhost").1 same, e) | inr q ↦ cc ],
      )
    ]
  ]

  -- The text is one that the regular expressions take for that of a server.
  pub record IsForServer : Type 0 where
    pub matches : lib.matches_log_destination (syslog_server host port) ≡ true
    pub no_file : lib.matches_log_file (syslog_server host port) ≡ false
    pub no_colon : is_free b':' host ≡ true
    pub no_sign : is_free b'=' host ≡ true

  to_syslog_error :
      IsForServer
      → port < 2 ^ 63
      → validate_app_protect_log_destination lib (syslog_server host port) ≡ (
          if ltb 65535 port || ltb port 1
          then some (
              some (
                concat
                  ("Error parsing port: " ∷ show_int (pos port) ∷ " not a valid port number" ∷ [])))
          else some (ip_error lib host))
  unfolding validate_app_protect_log_destination
  to_syslog_error s small = rw (
    s.matches,
    syslog_server-not_stderr host port s.no_colon,
    s.no_file,
    split-syslog_server host port s.no_colon,
    atoi-show_natural port small,
    split-server host port s.no_colon s.no_sign,
  )

  -- For a host without a colon or an equals sign and a port below 2 ^ 63, when the regular
  -- expressions take syslog:server=host:port for a destination and not for a file,
  -- ValidateAppProtectLogDestination accepts it exactly when the port is from 1 to 65535 and the
  -- host is localhost or an IP address; it does not panic then.
  pub validate_app_protect_log_destination-syslog_server :
      IsForServer
      → port < 2 ^ 63
      → (validate_app_protect_log_destination lib (syslog_server host port) ≡ some none)
        ↔ ((0 < port) × (port < 65536) × ((host ≡ "localhost") ⊎ (lib.parses_ip host ≡ true)))
  validate_app_protect_log_destination-syslog_server s small =
      rw (to_syslog_error s small) (bounded port _ (ip_error lib host) _ ip_error_lem)
