-- ===== src/Gift/Outcome.antt =====
-- What a request can come to: a refusal, which leaves users and records alone, or the transaction.
use new1v.Prelude.{ℕ, ◌≡◌, refl, not, Option, none, some, if-both, ◌==◌}
use new1v.Prelude.Int.{pos, leb_ℤ, ltb_ℤ}
use new1v.Prelude.Dict.{lookup}
use new1v.Records.{AppUser}
use new1v.Fee.{cents}
use new1v.Interaction.{InteractionRelationError, interaction_blocked}
use new1v.CallApi.Dialing.{normal_user}
use new1v.Gift.{
  Gift, GiftTables, GiftEnv, GiftSend, GiftReply, blocked, bad_price, too_frequent, bad_target,
  no_gift, bad_login, no_target, not_allowed, if_allowed, insufficient_coins, gift_income, pay_gift,
  hold_request, send_checked, send_between, from_sender, in_scene, to_target, of_gift, gift_send,
  hold_key, request_held,
}

-- The same users and records; the keys may differ.
abbrev pub Same : GiftTables → GiftTables → Type 0
Same t t' = (t'.users ≡ t.users) × (t'.records ≡ t.records)

module _ (P : GiftTables × GiftReply → Type 0) (env : GiftEnv) (sender_id : ℕ) (req : GiftSend)
    (t : GiftTables) (refuse : (t' : GiftTables) (e : GiftReply) → Same t t' → P (t', e))
    (pay : (t' : GiftTables) (target : AppUser) (g : Gift)
      → Same t t'
      → P (
          pay_gift sender_id req.target_user_id req.gift_id g.price env.certified_user_share_bps
            (gift_income env target g.price)
            env.fee_config
            t')) where
  held-Same : (o : Option ℕ) → Same t (hold_request env sender_id o t)
  held-Same none = (refl, refl)
  held-Same (some request) =
      if-both (Same t) env.redis_up (hold_key sender_id request _ t) t (refl, refl) (refl, refl)

  send_checked-outcome :
      (sender target : AppUser) (g : Gift) → P (send_checked env sender_id sender target req g t)
  unfolding send_checked
  send_checked-outcome sender target g =
      let held = held-Same req.request_id in
      if-both P (leb_ℤ g.price (pos 0)) (t, bad_price) _ (refuse t bad_price (refl, refl))
        (if-both P (request_held env sender_id req.request_id t) (t, too_frequent) _
          (refuse t too_frequent (refl, refl))
          (if-both P (ltb_ℤ sender.coins (cents g.price))
            (hold_request env sender_id req.request_id t, insufficient_coins) _
            (refuse (hold_request env sender_id req.request_id t) insufficient_coins held)
            (pay (hold_request env sender_id req.request_id t) target g held)))

  if_allowed-outcome :
      (o : Option InteractionRelationError) (sender target : AppUser) (g : Gift)
      → P (if_allowed o env sender_id sender target req g t)
  if_allowed-outcome (some e) sender target g = refuse t (not_allowed e) (refl, refl)
  if_allowed-outcome none sender target g = send_checked-outcome sender target g

  send_between-outcome :
      (sender target : AppUser) (g : Gift) → P (send_between env sender_id sender target req g t)
  unfolding send_between
  send_between-outcome sender target g =
      if-both P (interaction_blocked sender_id req.target_user_id env.blocks) (t, blocked) _
        (refuse t blocked (refl, refl)) (if_allowed-outcome _ sender target g)

  from_sender-outcome :
      (o : Option AppUser) (target : AppUser) (g : Gift)
      → P (from_sender o env sender_id target req g t)
  from_sender-outcome none target g = refuse t bad_login (refl, refl)
  from_sender-outcome (some sender) target g = send_between-outcome sender target g

  in_scene-outcome :
      (o : Option GiftReply) (target : AppUser) (g : Gift)
      → P (in_scene o env sender_id target req g t)
  in_scene-outcome (some e) target g = refuse t e (refl, refl)
  in_scene-outcome none target g = from_sender-outcome (normal_user sender_id t.users) target g

  to_target-outcome : (o : Option AppUser) (g : Gift) → P (to_target o env sender_id req g t)
  to_target-outcome none g = refuse t no_target (refl, refl)
  to_target-outcome (some target) g = in_scene-outcome _ target g

  of_gift-outcome : (o : Option Gift) → P (of_gift o env sender_id req t)
  of_gift-outcome none = refuse t no_gift (refl, refl)
  of_gift-outcome (some g) =
      if-both P (not g.is_active) (t, no_gift) _ (refuse t no_gift (refl, refl))
        (if-both P (req.target_user_id == 0) (t, bad_target) _ (refuse t bad_target (refl, refl))
          (to_target-outcome _ g))

  -- What holds of every refusal and of every transaction holds of the handler.
  pub gift_send-outcome : P (gift_send env sender_id req t)
  unfolding gift_send
  gift_send-outcome = of_gift-outcome (lookup req.gift_id env.gifts)
