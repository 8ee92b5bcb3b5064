-- ===== src/Web/Security/Clients.antt =====
-- Who a client is for the limiter.
use local_graph_rag.Prelude.{
  ℕ, Bool, true, false, ◌≡◌, refl, ap, Option, List, ◌⊎◌, contains, nat_eq, list_eq, is_empty,
  Bool-cases, inl, inr,
}
use local_graph_rag.Prelude.Text.{Str}
use local_graph_rag.Web.Middleware.{Policy, Web, security_middleware}
use local_graph_rag.Web.Security.{
  Incoming, peer_of, first_forwarded, resolve_client_ip, read_request, extract_bearer_token,
}

-- An address that is the peer's, or an address from a trusted peer's header.
abbrev pub IsVouched : List Str → (Str → Bool) → Incoming → Str → Type 0
IsVouched trusted is_ip r ip =
    (ip ≡ peer_of r) ⊎ ((contains (peer_of r) trusted ≡ true) × (is_ip ip ≡ true))

module _ (trusted : List Str) (is_ip : Str → Bool) (r : Incoming) where
  -- The address a request is limited under is its peer's, unless the peer is a trusted proxy, and
  -- then it is its peer's or a well-formed address.
  pub resolve_client_ip-IsVouched : IsVouched trusted is_ip r (resolve_client_ip trusted is_ip r)
  unfolding resolve_client_ip
  resolve_client_ip-IsVouched = elim (Bool-cases (contains (peer_of r) trusted)) [
    | inr e ↦ rw e (inl refl)
    | inl e ↦ elim (Bool-cases (is_empty (first_forwarded r))) [
      | inl empty ↦ rw (e, empty) (inl refl)
      | inr full ↦ elim (Bool-cases (is_ip (first_forwarded r))) [
        | inl well ↦ rw (e, full, well) (inr (refl, well))
        | inr ill ↦ rw (e, full, ill) (inl refl)
      ]
    ]
  ]

  unspoofed-ip :
      (header : Option Str)
      → contains (peer_of r) trusted ≡ false
      → resolve_client_ip trusted is_ip (record r { forwarded_for = header })
        ≡ resolve_client_ip trusted is_ip r
  unfolding resolve_client_ip
  unspoofed-ip header e = rw e

  -- The X-Forwarded-For of a peer that is no trusted proxy changes neither the verdict on its request
  -- nor the buckets.
  pub unspoofed-verdict :
      (header : Option Str) (token_hash : Str → Str) (policy : Policy) (now : ℕ) (w : Web)
      → contains (peer_of r) trusted ≡ false
      → security_middleware token_hash policy
          (read_request trusted is_ip (record r { forwarded_for = header }))
          now
          w
        ≡ security_middleware token_hash policy (read_request trusted is_ip r) now w
  unfolding extract_bearer_token
  unspoofed-verdict header token_hash policy now w e =
      ap
        (λ ip.
          security_middleware token_hash policy
            (record (read_request trusted is_ip r) { client_ip = ip }) now w)
        (unspoofed-ip header e)
