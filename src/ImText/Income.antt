-- ===== src/ImText/Income.antt =====
-- What the receiver of a message earns.
use new1v.Prelude.{ℕ, ◌*◌, arith}
use new1v.Prelude.Int.{ℤ, pos, ◌≤ℤ◌, negsuc, pos-*ℤ-pos}
use new1v.Records.{AppUser}
use new1v.Fee.{cents}
use new1v.Fee.Rounding.{quantize_share_bounds, cents_parts}
use new1v.ImText.{ImTextBillingConfig, receiver_income, calc_im_text_certified_user_income_diamonds}

calc_im_text_bounds :
    (n : ℕ) (share : ℤ)
    → let income = calc_im_text_certified_user_income_diamonds (pos n) share in
      (pos 0 ≤ℤ income) × (income ≤ℤ cents (pos n))
unfolding calc_im_text_certified_user_income_diamonds cents
calc_im_text_bounds n share = rw (pos-*ℤ-pos n 100) (quantize_share_bounds (n * 100) share)

-- A receiver's income lies between nothing and the price, if that is not negative, whatever the
-- share and whoever receives.
pub receiver_income_bounds :
    (config : ImTextBillingConfig) (receiver : AppUser)
    → pos 0 ≤ℤ config.price
    → (pos 0 ≤ℤ receiver_income config receiver)
      × (receiver_income config receiver ≤ℤ cents config.price)
unfolding receiver_income
receiver_income_bounds config receiver h = ground (
  arith,
  h,
  bounds config.price,
  calc_im_text_bounds 0 config.certified_user_share_bps,
  cents_parts config.price,
  cents_parts (pos 0),
)
  where
    bounds :
        (z : ℤ)
        → pos 0 ≤ℤ z
        → (pos 0 ≤ℤ calc_im_text_certified_user_income_diamonds z config.certified_user_share_bps)
          × (calc_im_text_certified_user_income_diamonds z config.certified_user_share_bps
              ≤ℤ cents z)
    bounds (pos n) _ = calc_im_text_bounds n config.certified_user_share_bps
    bounds (negsuc n) h = absurd (omega arith)
