-- ===== src/Wallet/Keystore.antt =====
-- wallet/wallet.go: the wallet over a keystore. The keystore, the signers of the key types and the
-- addresses of public keys are arguments; keys, addresses, messages and signatures are numbers.
use Prim.Native.String.{String, ◌++◌ as ◌<>◌}
use go_hop_exchange.Prelude.{ℕ, Bool, true, Option, none, some, List, [], Result, ok, err, and_then}
use go_hop_exchange.Exchange.Peers.{lookup, assign}

-- `KeyType`: the two that are known, and others.
pub data KeyType : Type 0 where
  kt_secp256k1 kt_bls kt_other : KeyType

-- The types of `crypto.Signature`.
pub data SigType : Type 0 where
  sig_type_unknown sig_type_secp256k1 sig_type_bls : SigType

-- `Signer`, less the generation of a key; `verify` gives the error of a signature that does not fit.
pub record Signer : Type 0 where
  pub to_public : ℕ → Result ℕ
  pub sign : ℕ → ℕ → Result ℕ
  pub verify : ℕ → ℕ → ℕ → Option String

-- `KeyInfo` and `Key`
pub record KeyInfo : Type 0 where
  pub k_type : KeyType
  pub private_key : ℕ

pub record Key : Type 0 where
  pub info : KeyInfo
  pub sig : Signer
  pub public_key : ℕ
  pub address : ℕ

-- A key of libp2p, as the keystore gives it back: of a type that is known, or not, and its bytes.
pub record StoredKey : Type 0 where
  pub tp : Option KeyType
  pub raw : Result ℕ

-- What the wallet uses: the signers, the address of a public key by its type, the text of an address,
-- and the keystore over a state `S`.
pub record Vault (S : Type 0) : Type 0 where
  pub sigs : KeyType → Option Signer
  pub secp256k1_address : ℕ → Result ℕ
  pub bls_address : ℕ → Result ℕ
  pub address_string : ℕ → String
  pub address_of_string : String → Result ℕ
  pub get : S → String → Result StoredKey
  pub put : S → String → KeyInfo → S × Option String
  pub delete : S → String → S × Option String
  pub list : S → Result (List String)
  pub gen_private : S → KeyType → S × Result ℕ

-- `KeystoreWallet`; `none` is `address.Undef`.
pub record KeystoreWallet (S : Type 0) : Type 0 where
  pub keystore : S
  pub keys : List (ℕ × Key)
  pub default_addr : Option ℕ

-- `crypto.Signature`
pub record Signature : Type 0 where
  pub sig_type : SigType
  pub sig_data : ℕ

-- `ActSigType`
unfoldable pub act_sig_type : KeyType → SigType
act_sig_type kt_bls = sig_type_bls
act_sig_type kt_secp256k1 = sig_type_secp256k1
act_sig_type kt_other = sig_type_unknown

module _ {S : Type 0} (v : Vault S) where
  -- `KeyTypeSig` and `SigTypeSig`
  unfoldable pub key_type_sig : KeyType → Result Signer
  key_type_sig t = elim (v.sigs t) [ none ↦ err "key type not supported" | some s ↦ ok s ]

  unfoldable pub sig_type_sig : SigType → Result Signer
  unfolding key_type_sig
  sig_type_sig sig_type_secp256k1 = key_type_sig kt_secp256k1
  sig_type_sig sig_type_bls = key_type_sig kt_bls
  sig_type_sig sig_type_unknown = err "sig type not supported"

  -- The address of a public key in `NewKeyFromKeyInfo`.
  unfoldable pub address_for : KeyType → ℕ → Result ℕ
  address_for kt_secp256k1 pub' = v.secp256k1_address pub'
  address_for kt_bls pub' = v.bls_address pub'
  address_for kt_other pub' = err "key type not supported"

  -- `NewKeyFromKeyInfo`, with the signer of the key.
  unfoldable pub new_key_from_key_info : Signer → KeyInfo → Result Key
  unfolding address_for
  new_key_from_key_info s ki = and_then (s.to_public ki.private_key) (λ p.
      and_then (address_for ki.k_type p)
        (λ a. ok (record { info = ki; sig = s; public_key = p; address = a })))

  -- The end of `NewKeyFromLibp2p`.
  unfoldable pub key_of : KeyType → ℕ → Result Key
  unfolding key_type_sig new_key_from_key_info
  key_of t raw =
      and_then (key_type_sig t)
        (λ s. new_key_from_key_info s (record { k_type = t; private_key = raw }))

  -- `NewKeyFromLibp2p`
  unfoldable pub new_key_from_libp2p : StoredKey → Result Key
  unfolding key_of
  new_key_from_libp2p k = elim k.tp [
    | none ↦ err "key type not supported"
    | some t ↦ and_then k.raw (key_of t)
  ]

  -- The name of a key in the keystore.
  abbrev pub name_of : ℕ → String
  name_of addr = "wallet-" <> v.address_string addr

  -- `getDefaultAddress` and `NewFromKeystore`
  unfoldable pub get_default_address : S → Result ℕ
  unfolding new_key_from_libp2p
  get_default_address s =
      and_then (v.get s "default") (λ k. and_then (new_key_from_libp2p k) (λ key. ok key.address))

  unfoldable pub new_from_keystore : S → KeystoreWallet S
  unfolding get_default_address
  new_from_keystore s = record {
    keystore = s;
    keys = [];
    default_addr = elim (get_default_address s) [ err e ↦ none | ok a ↦ some a ];
  }

  -- A key that is saved and cached.
  unfoldable pub save_key : Key → KeystoreWallet S → KeystoreWallet S × Option String
  unfolding assign
  save_key k w =
      let (s, e) = v.put w.keystore (name_of k.address) k.info in
      elim e [
        | some e ↦ (record w { keystore = s }, some e)
        | none ↦ (record w { keystore = s; keys = assign k.address k w.keys }, none)
      ]

  -- The end of `NewKey`: the first key is the default.
  unfoldable pub default_if_first : Key → KeystoreWallet S → KeystoreWallet S × Result ℕ
  default_if_first k w = elim w.default_addr [
    | some a ↦ (w, ok k.address)
    | none ↦
        let (s, e) = v.put w.keystore "default" k.info in
        elim e [
          | some e ↦ (record w { keystore = s }, err e)
          | none ↦ (record w { keystore = s; default_addr = some k.address }, ok k.address)
        ]
  ]

  -- `NewKey`
  unfoldable pub new_key : KeyType → KeystoreWallet S → KeystoreWallet S × Result ℕ
  unfolding key_type_sig new_key_from_key_info save_key default_if_first
  new_key t w = elim (key_type_sig t) [
    | err e ↦ (w, err e)
    | ok sg ↦
        let (s, pk) = v.gen_private w.keystore t in
        let w1 = record w { keystore = s } in
        elim (and_then pk
          (λ p. new_key_from_key_info sg (record { k_type = t; private_key = p }))) [
            | err e ↦ (w1, err e)
            | ok k ↦
                let (w2, saved) = save_key k w1 in
                elim saved [ some e ↦ (w2, err e) | none ↦ default_if_first k w2 ]
          ]
  ]

  -- `SetDefaultAddress`; `again` is the key as it is put back.
  unfoldable pub set_default_address :
      (StoredKey → KeyInfo) → ℕ → KeystoreWallet S → KeystoreWallet S × Option String
  set_default_address again addr w = elim (v.get w.keystore (name_of addr)) [
    | err e ↦ (w, some e)
    | ok k ↦
        let (s1, ignored) = v.delete w.keystore "default" in
        let (s2, e) = v.put s1 "default" (again k) in
        elim e [
          | some e ↦ (record w { keystore = s2 }, some e)
          | none ↦ (record w { keystore = s2; default_addr = some addr }, none)
        ]
  ]

  -- `ImportKey`
  unfoldable pub import_key : KeyInfo → KeystoreWallet S → KeystoreWallet S × Result ℕ
  unfolding key_type_sig new_key_from_key_info save_key
  import_key ki w = elim (and_then (key_type_sig ki.k_type) (λ s. new_key_from_key_info s ki)) [
    | err e ↦ (w, err e)
    | ok k ↦
        let (w', saved) = save_key k w in (w', elim saved [ some e ↦ err e | none ↦ ok k.address ])
  ]

  -- `ExportKey`
  unfoldable pub export_key : ℕ → KeystoreWallet S → Result KeyInfo
  unfolding lookup
  export_key addr w = elim (lookup addr w.keys) [
    | none ↦ err "address does not exist"
    | some k ↦ ok k.info
  ]

  -- `getKey`
  unfoldable pub get_key : ℕ → KeystoreWallet S → KeystoreWallet S × Result Key
  unfolding lookup assign new_key_from_libp2p
  get_key addr w = elim (lookup addr w.keys) [
    | some k ↦ (w, ok k)
    | none ↦ elim (and_then (v.get w.keystore (name_of addr)) new_key_from_libp2p) [
      | err e ↦ (w, err e)
      | ok k ↦ (record w { keys = assign k.address k w.keys }, ok k)
    ]
  ]

  -- `Sign`
  unfoldable pub sign : ℕ → ℕ → KeystoreWallet S → KeystoreWallet S × Result Signature
  unfolding get_key act_sig_type
  sign addr msg w =
      let (w', found) = get_key addr w in
      (
        w',
        and_then found (λ k.
            and_then (k.sig.sign k.info.private_key msg)
              (λ s. ok (record { sig_type = act_sig_type k.info.k_type; sig_data = s }))),
      )

  -- `Verify`
  unfoldable pub verify : ℕ → ℕ → Signature → Result Bool
  unfolding sig_type_sig
  verify addr msg sig =
      and_then (sig_type_sig sig.sig_type)
        (λ s. elim (s.verify sig.sig_data addr msg) [ some e ↦ err e | none ↦ ok true ])
