-- ===== src/Wallet/Signing.antt =====
-- What the wallet of wallet/wallet.go signs with a key that was imported.
use go_hop_exchange.Prelude.{
  ℕ, ◌≡◌, refl, ap, sym, subst, ◌∙◌, true, none, some, Option-cases, inl, inr, ==_self, ok,
  Result-cases, and_then, and_then-ok, eq_of_ok, err≢ok,
}
use go_hop_exchange.Exchange.Peers.{lookup, assign}
use go_hop_exchange.Exchange.Greeting.{lookup-assign}
use go_hop_exchange.Wallet.Keystore.{
  KeyType, SigType, kt_secp256k1, kt_bls, kt_other, Signer, KeyInfo, Key, Vault, KeystoreWallet,
  Signature, act_sig_type, key_type_sig, sig_type_sig, address_for, new_key_from_key_info, name_of,
  save_key, import_key, get_key, sign, verify,
}

-- What is relied on of the signers: what one signs is verified at the address of its key.
abbrev pub Signs : {S : Type 0} → Vault S → Type 0
Signs v =
    (t : KeyType) (sg : Signer) (pk p a msg d : ℕ)
    → v.sigs t ≡ some sg
    → sg.to_public pk ≡ ok p
    → address_for v t p ≡ ok a
    → sg.sign pk msg ≡ ok d
    → sg.verify d a msg ≡ none

module _ {S : Type 0} (v : Vault S) where
  -- A key that has its signer and its address.
  record IsWhole (k : Key) : Type 0 where
    known : v.sigs k.info.k_type ≡ some k.sig
    public_part : ℕ
    made : k.sig.to_public k.info.private_key ≡ ok public_part
    placed : address_for v k.info.k_type public_part ≡ ok k.address

  new_key_from_key_info-IsWhole :
      (s : Signer) (ki : KeyInfo) (k : Key)
      → v.sigs ki.k_type ≡ some s
      → new_key_from_key_info v s ki ≡ ok k
      → IsWhole k
  unfolding new_key_from_key_info
  new_key_from_key_info-IsWhole s ki k known h =
      let (p, made, h1) = and_then-ok (s.to_public ki.private_key) _ h in
      let (a, placed, h2) =
        and_then-ok (address_for v ki.k_type p)
          (λ a. ok (record { info = ki; sig = s; public_key = p; address = a })) h1 in
      subst IsWhole (eq_of_ok h2)
        (record { known = known; public_part = p; made = made; placed = placed })

  key_type_sig-known : (t : KeyType) (s : Signer) → key_type_sig v t ≡ ok s → v.sigs t ≡ some s
  unfolding key_type_sig
  key_type_sig-known t s h = elim (Option-cases (v.sigs t)) [
    | inl missing ↦ absurd (err≢ok (rw (missing, key_type_sig) at h))
    | inr (s', there) ↦ there ∙ ap some (eq_of_ok (rw (there, key_type_sig) at h))
  ]

  save_key-keys :
      (k : Key) (w : KeystoreWallet S)
      → (v.put w.keystore (name_of v k.address) k.info).1 ≡ none
      → (save_key v k w).0.keys ≡ assign k.address k w.keys
  unfolding save_key
  save_key-keys k w saved = rw (saved, save_key)

  -- The wallet has a whole key at the address that an import gives.
  import_key-lookup :
      (ki : KeyInfo) (w w' : KeystoreWallet S) (addr : ℕ)
      → import_key v ki w ≡ (w', ok addr)
      → (k : Key) × (lookup addr w'.keys ≡ some k) × (k.address ≡ addr) × IsWhole k
  unfolding import_key save_key
  import_key-lookup ki w w' addr h =
      elim (Result-cases
        (and_then (key_type_sig v ki.k_type) (λ s. new_key_from_key_info v s ki))) [
          | inl (e, bad) ↦ absurd (err≢ok (ap (λ r. r.1) (rw (bad, import_key) at h)))
          | inr (k, good) ↦
              let (s, typed, made) = and_then-ok (key_type_sig v ki.k_type) _ good in
              elim (Option-cases (v.put w.keystore (name_of v k.address) k.info).1) [
                | inr (e, failed) ↦
                    absurd (err≢ok (ap (λ r. r.1) (rw (good, import_key, failed) at h)))
                | inl saved ↦
                    let e = rw (good, import_key, saved) at h in
                    let same : k.address ≡ addr = eq_of_ok (ap (λ r. r.1) e) in
                    let there : lookup k.address (assign k.address k w.keys) ≡ some k =
                      lookup-assign k.address k.address k w.keys ∙ rw (==_self k.address) in
                    (
                      k,
                      subst (λ m. lookup addr m ≡ some k)
                          (sym (save_key-keys k w saved) ∙ ap (λ r. r.0.keys) e)
                          (subst (λ x. lookup x (assign k.address k w.keys) ≡ some k) same there),
                      same,
                      new_key_from_key_info-IsWhole s ki k (key_type_sig-known ki.k_type s typed)
                          made,
                    )
              ]
        ]

  sig_type_sig-act :
      (t : KeyType) (s : Signer) (p a : ℕ)
      → v.sigs t ≡ some s
      → address_for v t p ≡ ok a
      → sig_type_sig v (act_sig_type t) ≡ ok s
  unfolding sig_type_sig act_sig_type key_type_sig address_for
  sig_type_sig-act kt_secp256k1 s p a known placed = rw (known, key_type_sig)
  sig_type_sig-act kt_bls s p a known placed = rw (known, key_type_sig)
  sig_type_sig-act kt_other s p a known placed = absurd (err≢ok placed)

  verify_with :
      (t : SigType) (sg : Signer) (addr msg d : ℕ)
      → sig_type_sig v t ≡ ok sg
      → sg.verify d addr msg ≡ none
      → verify v addr msg (record { sig_type = t; sig_data = d }) ≡ ok true
  unfolding verify
  verify_with t sg addr msg d found verified = rw (found, verify, and_then) (rw verified refl)

  verify_whole :
      (k : Key) (addr msg d : ℕ)
      → IsWhole k
      → k.sig.verify d addr msg ≡ none
      → verify v addr msg (record { sig_type = act_sig_type k.info.k_type; sig_data = d }) ≡ ok true
  verify_whole k addr msg d whole verified =
      verify_with (act_sig_type k.info.k_type) k.sig addr msg d
        (sig_type_sig-act k.info.k_type k.sig whole.public_part k.address whole.known whole.placed)
        verified

  -- What the wallet signs with a key that was imported is verified by the wallet at the address that the
  -- import gave, if what a signer signs is verified at the address of its key.
  pub import_key-sign-verify :
      (ki : KeyInfo) (w w' w'' : KeystoreWallet S) (addr msg : ℕ) (sig : Signature)
      → Signs v
      → import_key v ki w ≡ (w', ok addr)
      → sign v addr msg w' ≡ (w'', ok sig)
      → verify v addr msg sig ≡ ok true
  unfolding sign get_key verify
  import_key-sign-verify ki w w' w'' addr msg sig signs imported signed =
      let (k, cached, same, whole) = import_key-lookup ki w w' addr imported in
      let (d, made, built) =
        and_then-ok (k.sig.sign k.info.private_key msg)
          (λ d. ok (record { sig_type = act_sig_type k.info.k_type; sig_data = d }))
          (ap (λ r. r.1) (rw (cached, get_key, sign) at signed)) in
      let verified : k.sig.verify d addr msg ≡ none =
        subst (λ x. k.sig.verify d x msg ≡ none) same
          (signs k.info.k_type k.sig k.info.private_key whole.public_part k.address msg d
            whole.known whole.made whole.placed made) in
      subst (λ x. verify v addr msg x ≡ ok true) (eq_of_ok built)
        (verify_whole k addr msg d whole verified)
