-- ===== src/Tests/Wallets.antt =====
-- wallet/wallet.go with a signer whose signature is the message next to the key.
use Prim.Native.String.{String}
use go_hop_exchange.Prelude.{
  ℕ, ◌+◌, ◌≡◌, refl, ap, sym, ◌∙◌, true, none, some, List, [], ◌∷◌, ◌==◌, ==_iff, subst,
  if◌then◌else◌, ok, err, eq_of_ok, eq_of_some,
}
use go_hop_exchange.Exchange.Peers.{lookup, assign}
use go_hop_exchange.Wallet.Keystore.{
  KeyType, kt_secp256k1, kt_bls, kt_other, sig_type_secp256k1, Signer, KeyInfo, Vault,
  KeystoreWallet, Signature, act_sig_type, key_type_sig, address_for, new_key_from_key_info,
  save_key, import_key, get_key, sign, verify,
}
use go_hop_exchange.Wallet.Signing.{Signs, import_key-sign-verify}

abbrev plain : Signer
plain = record {
  to_public = λ pk. ok pk;
  sign = λ pk msg. ok (pk + msg);
  verify = λ s addr msg. if addr + msg == s then none else some "invalid signature";
}

abbrev vault : Vault (List String)
vault = record {
  sigs = λ t. some plain;
  secp256k1_address = λ p. ok p;
  bls_address = λ p. ok p;
  address_string = λ a. "f1";
  address_of_string = λ s. ok 0;
  get = λ s name. err "no such key";
  put = λ s name k. (name ∷ s, none);
  delete = λ s name. (s, none);
  list = λ s. ok s;
  gen_private = λ s t. (s, ok 1);
}

address_for-same : (t : KeyType) (p a : ℕ) → address_for vault t p ≡ ok a → p ≡ a
unfolding address_for
address_for-same kt_secp256k1 p a h = eq_of_ok h
address_for-same kt_bls p a h = eq_of_ok h
address_for-same kt_other p a h = cc

vault-Signs : Signs vault
vault-Signs t sg pk p a msg d known made placed signed =
    subst (λ (g : Signer). g.to_public pk ≡ ok p → g.sign pk msg ≡ ok d → g.verify d a msg ≡ none)
      (eq_of_some known)
      (λ m sd.
        let e : a + msg ≡ d =
          ap (λ x. x + msg) (sym (eq_of_ok m ∙ address_for-same t p a placed)) ∙ eq_of_ok sd in
        rw ((==_iff (a + msg) d).1 e) refl)
      made signed

abbrev key_info : KeyInfo
key_info = record { k_type = kt_secp256k1; private_key = 30 }

abbrev empty : KeystoreWallet (List String)
empty = record { keystore = []; keys = []; default_addr = none }

abbrev imported : KeystoreWallet (List String)
imported = record {
  keystore = "wallet-f1" ∷ [];
  keys = (30, record { info = key_info; sig = plain; public_key = 30; address = 30 }) ∷ [];
  default_addr = none;
}

imports : import_key vault key_info empty ≡ (imported, ok 30)
unfolding import_key key_type_sig new_key_from_key_info address_for save_key assign
imports = refl

abbrev signature : Signature
signature = record { sig_type = sig_type_secp256k1; sig_data = 35 }

signs : sign vault 30 5 imported ≡ (imported, ok signature)
unfolding sign get_key lookup act_sig_type
signs = refl

import_key-sign-verify_example : verify vault 30 5 signature ≡ ok true
import_key-sign-verify_example =
    import_key-sign-verify vault key_info empty imported imported 30 5 signature vault-Signs imports
      signs
