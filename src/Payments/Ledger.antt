-- ===== src/Payments/Ledger.antt =====
-- The funds of a channel over the life of its messages, as payments/channel.go records them: the
-- creation, its confirmation, funds that are added, and the vouchers in between.
use go_hop_exchange.Prelude.{ℕ, ◌≡◌, some, ℤ, pos, ◌+ℤ◌, ltb_ℤ, ◌-ℤ◌, if◌then◌else◌}
use go_hop_exchange.Payments.Types.{ChannelInfo, Voucher, given}
use go_hop_exchange.Payments.Env.{Env}
use go_hop_exchange.Payments.Requests.{FundsRes}
use go_hop_exchange.Payments.Store.{new_channel, outbound_active_by_from_to}
use go_hop_exchange.Payments.Funds.{for_funds, started, process_task}
use go_hop_exchange.Payments.Vouchers.{with_new_voucher}
use go_hop_exchange.Payments.Pending.{adding, on_created, on_add_failed, on_added}

-- One change of the stored channel: funds are added by a run of `processTask` that finds the channel
-- and starts to wait for the message of them, and a message that is waited for was sent.
pub data Change {W : Type 0} (env : Env W) (ci ci' : ChannelInfo) : Type 0 where
  confirm_create :
      (addr mcid : ℕ) → ci.create_msg ≡ some mcid → ci' ≡ on_created addr ci → Change env ci ci'
  add :
      (w w' : W) (from to id mcid : ℕ) (amt : ℤ) (res : FundsRes)
      → outbound_active_by_from_to env w from to ≡ given ci
      → process_task env w from to amt ≡ (w', given (started res (for_funds id mcid)))
      → ci' ≡ adding amt mcid ci
      → Change env ci ci'
  fail_add : (mcid : ℕ) → ci.add_funds_msg ≡ some mcid → ci' ≡ on_add_failed ci → Change env ci ci'
  confirm_add : (mcid : ℕ) → ci.add_funds_msg ≡ some mcid → ci' ≡ on_added ci → Change env ci ci'
  -- A voucher of a channel that has an address, with what its actor holds.
  add_voucher :
      (sv : Voucher) (balance : ℤ) (addr : ℕ)
      → ci.channel ≡ some addr
      → ci' ≡ with_new_voucher sv balance ci
      → Change env ci ci'

-- What a change sends, what it gives up, and by what the actor holds more than the confirmed amount
-- where a voucher comes in.
abbrev pub sends : {W : Type 0} {env : Env W} {ci ci' : ChannelInfo} → Change env ci ci' → ℤ
sends (add _ _ _ _ _ _ amt _ _ _ _) = amt
sends _ = pos 0

abbrev pub loses : {W : Type 0} {env : Env W} {ci ci' : ChannelInfo} → Change env ci ci' → ℤ
loses {ci = ci} (fail_add _ _ _) = ci.pending_amount
loses _ = pos 0

abbrev pub raises : {W : Type 0} {env : Env W} {ci ci' : ChannelInfo} → Change env ci ci' → ℤ
raises {ci = ci} (add_voucher _ balance _ _ _) =
    if ltb_ℤ ci.amount balance then balance -ℤ ci.amount else pos 0
raises _ = pos 0

-- A channel from its creation on, with the sums of what was sent for it, of what failed, and of what
-- vouchers found on the actor beyond the confirmed amount.
pub data Life {W : Type 0} (env : Env W) (from to mcid : ℕ) (amt : ℤ)
    : ChannelInfo → ℤ → ℤ → ℤ → Type 0 where
  opened : Life env from to mcid amt (new_channel from to mcid amt) amt (pos 0) (pos 0)
  later :
      {ci ci' : ChannelInfo} {total lost raised : ℤ}
      → Life env from to mcid amt ci total lost raised
      → (c : Change env ci ci')
      → Life env from to mcid amt ci' (total +ℤ sends c) (lost +ℤ loses c) (raised +ℤ raises c)
