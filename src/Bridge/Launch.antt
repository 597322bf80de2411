-- ===== src/Bridge/Launch.antt =====
-- cmd/bridge/main.go: the start of the bridge, up to its listener, and its exit codes. url.Parse and
-- net.ParseIP are parameters; so are the probes of the port and what reclaiming it comes to.
use network_ultra_server.Prelude.{
  ℕ, suc, zero, ◌+◌, ◌≡◌, ◌⊎◌, inl, inr, Bool, true, false, not, ◌&&◌, ◌||◌, List, [], Option, none,
  some, ◌==◌, if◌then◌else◌, arith, bytes_eq, ==_iff, Option-cases, Bool-cases,
}
use network_ultra_server.Strings.{Bytes, trim_brackets}
use network_ultra_server.Ws.Labels.{bytes_of}
use network_ultra_server.Net.{is_loopback, split_host_port}

-- The parts of a *url.URL that are looked at; whether u.User is there.
pub record Url : Type 0 where
  pub scheme : Bytes
  pub has_user : Bool
  pub host : Bytes
  pub path : Bytes
  pub raw_query : Bytes
  pub fragment : Bytes

pub data EndpointError : Type 0 where
  invalid_listen listen_not_loopback upstream_not_root plaintext_upstream wrong_scheme :
      EndpointError

-- How `run` goes on: with an exit code, or with serveBridge.
pub data Launch : Type 0 where
  exits : ℕ → Launch
  serves : Launch

abbrev pub is_server_root : Url → Bool
is_server_root u =
    not (u.host == [])
    && not u.has_user
    && (u.path == [] || u.path == bytes_of "/")
    && u.raw_query == []
    && u.fragment == []

-- The switch over the scheme.
unfoldable pub check_scheme : Bytes → Bool → Option EndpointError
check_scheme scheme allow_insecure =
    if scheme == bytes_of "wss"
    then none
    else if scheme == bytes_of "ws"
    then if allow_insecure then none else some EndpointError.plaintext_upstream
    else some EndpointError.wrong_scheme

-- The wait for the port after a reclaim: the number of the probe that comes next.
unfoldable pub wait_until_free : ℕ → (ℕ → Bool) → ℕ → ℕ
wait_until_free zero is_free probe = probe
wait_until_free (suc polls) is_free probe =
    let rest = wait_until_free polls is_free (probe + 1) in
    if is_free probe then probe + 1 else rest

-- maybeReclaimStaleListener: whether it returns nil.
unfoldable pub maybe_reclaim_stale_listener : Bool → (ℕ → Bool) → Bool → Bool
maybe_reclaim_stale_listener enabled is_free reclaimed =
    if not enabled
    then true
    else if is_free 0
    then true
    else if not reclaimed
    then false
    else is_free (wait_until_free 20 is_free 1)

module _ (parse_ip : Bytes → Option (List ℕ)) (parse_url : Bytes → Option Url) where
  unfoldable pub extract_host_from_ws_url : Bytes → Bytes
  extract_host_from_ws_url ws_url = elim (parse_url ws_url) [ none ↦ [] | some u ↦ u.host ]

  abbrev pub listens_on_loopback : Bytes → Bool
  listens_on_loopback host = elim (parse_ip (trim_brackets host)) [
    | none ↦ false
    | some ip ↦ is_loopback ip
  ]

  unfoldable pub check_upstream : Bytes → Bool → Option EndpointError
  check_upstream upstream allow_insecure = elim (parse_url upstream) [
    | none ↦ some EndpointError.upstream_not_root
    | some u ↦
        if not (is_server_root u)
        then some EndpointError.upstream_not_root
        else check_scheme u.scheme allow_insecure
  ]

  -- validateBridgeEndpoints, with none for nil.
  unfoldable pub validate_bridge_endpoints : Bytes → Bytes → Bool → Option EndpointError
  validate_bridge_endpoints listen upstream allow_insecure = elim (split_host_port listen) [
    | none ↦ some EndpointError.invalid_listen
    | some (host, _) ↦
        if not (listens_on_loopback host)
        then some EndpointError.listen_not_loopback
        else check_upstream upstream allow_insecure
  ]

  -- run
  unfoldable pub launch : Bool → Bytes → Bytes → Bool → Bool → (ℕ → Bool) → Bool → Launch
  launch show_version listen upstream allow_insecure reclaim is_free reclaimed =
      if show_version
      then Launch.exits 0
      else (elim (validate_bridge_endpoints listen upstream allow_insecure) [
        | some _ ↦ Launch.exits 2
        | none ↦
            if maybe_reclaim_stale_listener reclaim is_free reclaimed
            then Launch.serves
            else Launch.exits 2
      ])

  check_upstream-none :
      (upstream : Bytes) (allow_insecure : Bool)
      → check_upstream upstream allow_insecure ≡ none
      → (u : Url) × (parse_url upstream ≡ some u)
        × (is_server_root u ≡ true)
        × ((u.scheme ≡ bytes_of "wss") ⊎ ((u.scheme ≡ bytes_of "ws") × (allow_insecure ≡ true)))
  unfolding check_upstream check_scheme
  check_upstream-none upstream allow h = elim (Option-cases (parse_url upstream)) [
    | inl e ↦ absurd (ground arith)
    | inr (u, e) ↦ elim (Bool-cases (u.scheme == bytes_of "wss")) [
      | inl y ↦ (u, e, ground arith, inl ((==_iff u.scheme (bytes_of "wss")).0 y))
      | inr n ↦ (u, e, ground arith, inr (ground (arith, ==_iff u.scheme (bytes_of "ws"))))
    ]
  ]

  -- The bridge serves only on a loopback address, and only for an upstream that is the root URL of a
  -- server, over wss, or over ws if the flag allows it.
  launch_guards :
      (show_version : Bool) (listen upstream : Bytes) (allow_insecure reclaim : Bool)
      (is_free : ℕ → Bool) (reclaimed : Bool)
      → launch show_version listen upstream allow_insecure reclaim is_free reclaimed ≡ Launch.serves
      → ((host : Bytes) × (port : Bytes) × (split_host_port listen ≡ some (host, port))
          × (listens_on_loopback host ≡ true))
        × ((u : Url) × (parse_url upstream ≡ some u)
            × (is_server_root u ≡ true)
            × ((u.scheme ≡ bytes_of "wss")
                ⊎ ((u.scheme ≡ bytes_of "ws") × (allow_insecure ≡ true))))
  unfolding launch validate_bridge_endpoints
  launch_guards version listen upstream allow reclaim is_free reclaimed h =
      elim (Option-cases (split_host_port listen)) [
        | inl e ↦ absurd (ground arith)
        | inr ((host, port), e) ↦
            ((host, port, e, ground arith), check_upstream-none upstream allow (ground arith))
      ]
