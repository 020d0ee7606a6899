-- ===== src/Backends/Tcp/Connecting.antt =====
-- Which attempts to connect succeed.
use simple_network_monitor.Prelude.{
  ◌≡◌, ◌↔◌, ◌⊎◌, refl, ap, sym, ◌∙◌, inl, inr, String, Bool, true, Option, none, some, List, [],
  ◌∷◌, any, Result, ok, err, then-ok, bind-ok, Result-cases, is_err, is_some, not,
}
use simple_network_monitor.Domain.Clock.{Duration}
use simple_network_monitor.Domain.Validation.{validate_address, validate_duration}
use simple_network_monitor.Backends.Tcp.{
  TcpRequest, TcpTransport, connect_first, resolve_and_connect, run, timed, attempt,
}

module _ {A : Type 0} (t : TcpTransport A) where
  abbrev pub connects : A → Bool
  connects a = not (is_err (t.connect a))

  first_accepted :
      (elapsed : Duration) (e : String) (a : A) (addresses : List A) (d : Unit {0})
      → t.connect a ≡ ok d
      → connect_first t elapsed e (a ∷ addresses) ≡ ok elapsed
  unfolding connect_first
  first_accepted elapsed e a addresses d f =
      ap (λ r. attempt elapsed (λ e'. connect_first t elapsed e' addresses) r) f

  first_refused :
      (elapsed : Duration) (e e' : String) (a : A) (addresses : List A)
      → t.connect a ≡ err e'
      → connect_first t elapsed e (a ∷ addresses) ≡ connect_first t elapsed e' addresses
  unfolding connect_first
  first_refused elapsed e e' a addresses f =
      ap (λ r. attempt elapsed (λ e'. connect_first t elapsed e' addresses) r) f

  first_iff :
      (elapsed : Duration) (e : String) (addresses : List A)
      → (connect_first t elapsed e addresses ≡ ok elapsed) ↔ (any connects addresses ≡ true)
  unfolding connect_first
  first_iff elapsed e [] = (λ h. cc, λ h. cc)
  first_iff elapsed e (a ∷ addresses) = elim (Result-cases (t.connect a)) [
    | inl (d, f) ↦ (λ h. rw f refl, λ h. first_accepted elapsed e a addresses d f)
    | inr (e', f) ↦
        let rest = first_iff elapsed e' addresses in
        let step = first_refused elapsed e e' a addresses f in
        let same : any connects (a ∷ addresses) ≡ any connects addresses = rw f refl in
        (λ h. same ∙ rest.0 (sym step ∙ h), λ h. step ∙ rest.1 (sym same ∙ h))
  ]

  -- Where the timeout answers a result by itself or not at all, an attempt succeeds exactly when the
  -- address and the timeout of the request are valid, the target resolves, one of the addresses
  -- accepts the connection, and the timeout has not elapsed before.
  pub run_iff :
      (is_ip_literal : String → Bool)
      (in_time : Duration → Result String Duration → Option (Result String Duration))
      (elapsed : Duration) (r : TcpRequest)
      → ((d : Duration) (x : Result String Duration)
          → (in_time d x ≡ none) ⊎ (in_time d x ≡ some x))
      → (run is_ip_literal t in_time elapsed r ≡ ok elapsed) ↔ (
          (validate_address is_ip_literal r.address ≡ ok tt)
          × (validate_duration r.timeout ≡ ok tt)
          × (is_some (in_time r.timeout (resolve_and_connect t elapsed r)) ≡ true)
          × ((addresses : List A) × (t.resolve r.address r.port ≡ ok addresses)
              × (any connects addresses ≡ true)))
  unfolding run resolve_and_connect
  run_iff is_ip_literal in_time elapsed r answers = (connected, accepted)
    where
      connected :
          run is_ip_literal t in_time elapsed r ≡ ok elapsed
          → (validate_address is_ip_literal r.address ≡ ok tt)
            × (validate_duration r.timeout ≡ ok tt)
            × (is_some (in_time r.timeout (resolve_and_connect t elapsed r)) ≡ true)
            × ((addresses : List A) × (t.resolve r.address r.port ≡ ok addresses)
                × (any connects addresses ≡ true))
      connected h =
          let (address, h1) = then-ok (validate_address is_ip_literal r.address) _ h in
          let (timeout, h2) = then-ok (validate_duration r.timeout) _ h1 in
          elim (answers r.timeout (resolve_and_connect t elapsed r)) [
            | inl late ↦ absurd (let w = sym h2 ∙ ap timed late in cc)
            | inr e ↦
                let (addresses, resolved, first) =
                  bind-ok (t.resolve r.address r.port) _ (sym (ap timed e) ∙ h2) in
                (
                  address,
                  timeout,
                  ap is_some e,
                  (addresses, resolved, (first_iff elapsed _ addresses).0 first),
                )
          ]

      accepted :
          (validate_address is_ip_literal r.address ≡ ok tt)
            × (validate_duration r.timeout ≡ ok tt)
            × (is_some (in_time r.timeout (resolve_and_connect t elapsed r)) ≡ true)
            × ((addresses : List A) × (t.resolve r.address r.port ≡ ok addresses)
                × (any connects addresses ≡ true))
          → run is_ip_literal t in_time elapsed r ≡ ok elapsed
      accepted (address, timeout, soon, (addresses, resolved, one)) =
          elim (answers r.timeout (resolve_and_connect t elapsed r)) [
            | inl late ↦ absurd (let w = sym soon ∙ ap is_some late in cc)
            | inr e ↦
                rw (address, timeout)
                  (ap timed e
                    ∙ rw resolved
                        ((first_iff elapsed "TCP target resolved to no addresses" addresses).1 one))
          ]
