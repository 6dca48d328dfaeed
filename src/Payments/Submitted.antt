-- ===== src/Payments/Submitted.antt =====
-- payments/store.go: which vouchers of a channel were submitted.
use go_hop_exchange.Prelude.{
  Bool, true, false, ◌&&◌, Option, none, some, List, [], ◌∷◌, ltb, ◌==◌, if◌then◌else◌, map,
}
use go_hop_exchange.Payments.Types.{
  Voucher, VoucherInfo, ChannelInfo, Answer, given, failed, text, same_voucher,
}

-- `infoForVoucher`
unfoldable pub info_for_voucher : Voucher → List VoucherInfo → Option VoucherInfo
info_for_voucher sv [] = none
info_for_voucher sv (v ∷ vs) = if same_voucher sv v.voucher then some v else info_for_voucher sv vs

-- `hasVoucher`
abbrev pub has_voucher : Voucher → List VoucherInfo → Bool
has_voucher sv vs = elim (info_for_voucher sv vs) [ none ↦ false | some _ ↦ true ]

-- `wasVoucherSubmitted`
unfoldable pub was_voucher_submitted : ChannelInfo → Voucher → Answer Bool
unfolding info_for_voucher
was_voucher_submitted ci sv = elim (info_for_voucher sv ci.vouchers) [
  | none ↦ failed (text "cannot submit voucher that has not been added to channel")
  | some v ↦ given v.submitted
]

abbrev pub as_submitted : VoucherInfo → VoucherInfo
as_submitted v = record v { submitted = true }

-- `vi.Submitted = true` for the entry that `infoForVoucher` finds.
unfoldable pub mark_first : Voucher → List VoucherInfo → List VoucherInfo
mark_first sv [] = []
mark_first sv (v ∷ vs) =
    let rest = mark_first sv vs in
    if same_voucher sv v.voucher then as_submitted v ∷ vs else v ∷ rest

-- One round of the loop that follows: a lower nonce of the same lane.
unfoldable pub mark_if_lower : Voucher → VoucherInfo → VoucherInfo
mark_if_lower sv v =
    if v.voucher.lane == sv.lane && ltb v.voucher.nonce sv.nonce then as_submitted v else v

-- `markVoucherSubmitted`
unfoldable pub mark_voucher_submitted : ChannelInfo → Voucher → Answer ChannelInfo
unfolding info_for_voucher mark_first mark_if_lower
mark_voucher_submitted ci sv = elim (info_for_voucher sv ci.vouchers) [
  | none ↦ failed (text "cannot submit voucher that has not been added to channel")
  | some _ ↦ given (record ci { vouchers = map (mark_if_lower sv) (mark_first sv ci.vouchers) })
]
