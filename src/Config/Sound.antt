-- ===== src/Config/Sound.antt =====
-- What the checks of crates/cathub/src/config.rs guarantee.
use cathub.Prelude.{
  ◌≤◌, ◌≡◌, refl, Bool, true, false, not, ◌&&◌, ◌||◌, List, [], ◌∷◌, Option, none, some, ◌==◌, ltb,
  equal, is_empty, Bytes, arith,
}
use cathub.Prelude.Text.{text, trim, within}
use cathub.Keyer.Endpoint.{from_tokens}
use cathub.Config.{
  Config, RadioConfig, SerialEndpointConfig, WinkeyerConfig, WinkeyerEndpointConfig, Invalid,
  clashes, first, has, to_ascii_uppercase, eq_ignore_ascii_case, validate_winkeyer_endpoint,
  check_endpoints, primary_count, check_serial, check_transport, check_bind, check_device,
  validate_winkeyer, validate,
}
use cathub.Config.Permissions.{IsClosed, passed, validate_winkeyer_endpoint-IsClosed}

-- The endpoint's permissions are closed, and no other of the list has its transport.
unfoldable pub AreSound : List Bytes → List WinkeyerEndpointConfig → Type 0
AreSound seen [] = Unit
AreSound seen (e ∷ es) =
    IsClosed (from_tokens e.perms)
    × (has seen (to_ascii_uppercase e.transport) ≡ false)
    × AreSound (to_ascii_uppercase e.transport ∷ seen) es

both_passed : (a b : Option Invalid) → first a b ≡ none → (a ≡ none) × (b ≡ none)
both_passed none b h = (refl, h)
both_passed (some e) b h = ground (arith, h)

check_endpoints-AreSound :
    (es : List WinkeyerEndpointConfig) (seen : List Bytes)
    → check_endpoints es seen ≡ none
    → AreSound seen es
unfolding AreSound check_endpoints
check_endpoints-AreSound [] seen h = tt
check_endpoints-AreSound (e ∷ es) seen h =
    let (fit, r) = both_passed (validate_winkeyer_endpoint e) _ h in
    let (fresh, later) = passed (has seen (to_ascii_uppercase e.transport)) _ _ r in
    (
      validate_winkeyer_endpoint-IsClosed e fit,
      fresh,
      check_endpoints-AreSound es (to_ascii_uppercase e.transport ∷ seen) later,
    )

abbrev has_dialect : SerialEndpointConfig → Bool
has_dialect e =
    equal e.dialect (text "ts590")
    || equal e.dialect (text "ts590-transparent")
    || equal e.dialect (text "ts2000")

abbrev has_backend : RadioConfig → Bool
has_backend radio =
    equal radio.backend (text "ts590")
    || equal radio.backend (text "rigctld")
    || equal radio.backend (text "loopback")

check_serial-next :
    (es : List SerialEndpointConfig) (next : Option Invalid)
    → check_serial es next ≡ none
    → next ≡ none
unfolding check_serial
check_serial-next [] next h = h
check_serial-next (e ∷ es) next h =
    let (h1, r1) = passed (clashes e.application_transport e.transport) _ _ h in
    let (h2, r2) = passed (not (has_dialect e)) _ _ r1 in
    let (h3, r3) = passed (equal e.dialect (text "ts590-transparent") && e.single_vfo) _ _ r2 in
    check_serial-next es next r3

-- Without a device there is no endpoint; with one, its transmit limit is in range, its port is not
-- the radio's, one endpoint at most is primary, and the endpoints are sound.
unfoldable pub DeviceIsSound : Config → Option WinkeyerConfig → Type 0
DeviceIsSound c none = is_empty c.winkeyer_endpoint ≡ true
DeviceIsSound c (some w) =
    (within 1000 300000 w.max_tx_ms ≡ true)
    × (eq_ignore_ascii_case w.port c.radio.port ≡ false)
    × (primary_count c.winkeyer_endpoint ≤ 1)
    × AreSound [] c.winkeyer_endpoint

module _ {SocketAddr : Type 0} (parse : Bytes → Option SocketAddr)
    (is_loopback : SocketAddr → Bool) where
  validate_winkeyer-DeviceIsSound :
      (c : Config) (device : Option WinkeyerConfig)
      → validate_winkeyer parse is_loopback c device ≡ none
      → DeviceIsSound c device
  unfolding validate_winkeyer check_device DeviceIsSound
  validate_winkeyer-DeviceIsSound c none h =
      let (h1, r1) = passed (not (is_empty c.winkeyer_endpoint)) _ _ h in ground (arith, h1)
  validate_winkeyer-DeviceIsSound c (some w) h =
      let (h1, r1) = passed (is_empty (trim w.port)) _ _ h in
      let (h2, r2) = passed (not (w.baud == 1200)) _ _ r1 in
      let (h3, r3) = passed (not (within 1000 300000 w.max_tx_ms)) _ _ r2 in
      let (h4, r4) = both_passed (check_bind parse is_loopback (parse w.api_bind)) _ r3 in
      let (h5, r5) = passed (eq_ignore_ascii_case w.port c.radio.port) _ _ r4 in
      let (h6, r6) = passed (ltb 1 (primary_count c.winkeyer_endpoint)) _ _ r5 in
      (
        ground (arith, h3),
        h5,
        ground (arith, h6),
        check_endpoints-AreSound c.winkeyer_endpoint [] r6,
      )

  -- A configuration that passes the checks serves some endpoint, and its keyer is sound: without a
  -- device it has no endpoint; with one, the transmit limit is from 1 s to 300 s, the port is not the
  -- radio's, at most one endpoint is primary, no two endpoints share a transport up to the case of
  -- letters, and the permissions that the session of each takes from its tokens are closed: sending
  -- comes with the status, keying with sending and control, the keyer's memory with the status and
  -- control.
  pub validate-DeviceIsSound :
      (c : Config)
      → validate parse is_loopback c ≡ none
      → (is_empty c.serial_endpoint && is_empty c.hamlib_net ≡ false) × DeviceIsSound c c.winkeyer
  unfolding validate
  validate-DeviceIsSound c h =
      let (h1, r1) = passed (not (has_backend c.radio)) _ _ h in
      let (h2, r2) = both_passed (check_transport c.radio) _ r1 in
      let (h3, r3) =
        passed (is_empty c.serial_endpoint && is_empty c.hamlib_net) _ _
          (check_serial-next c.serial_endpoint _ r2) in
      (h3, validate_winkeyer-DeviceIsSound c c.winkeyer r3)
