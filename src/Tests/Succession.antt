-- ===== src/Tests/Succession.antt =====
-- Carol's offer from the story of the role chain, before she claims.
use undergroundbb.Grant.SortKey.{random_suffix, after, exactly, day_prefix, tagged_key}
use undergroundbb.Base.{◌===◌, keep, any, find, ◌*◌, ◌≡◌, refl, [], ◌∷◌, codes, List, first}
use undergroundbb.Grant.Records.{GrantRecord}
use undergroundbb.Grant.Keys.{day_ms}
use undergroundbb.Tests.Toy.{toy, alice, carol, designation, root_grant, bob_admin}
use undergroundbb.Succession.Status.{
  add_days, is_admin_member, claimed_by, first_grant_loop, first_grant_to_admin, key_day_ms,
  bettered_at, bettered, nothing_best, newest_in, newest_loop, newest_of, offer_of, offers_from,
  unique, successor_offers, MemberLike, SuccessorOffer, offer_for,
}
use undergroundbb.Succession.Offers.{IsStanding, successor_offers-IsStanding}

abbrev members : List MemberLike
members =
    record { user_id = alice; role = codes "admin" }
    ∷ record { user_id = carol; role = codes "member" }
    ∷ []

abbrev grants : List GrantRecord
grants = root_grant ∷ bob_admin ∷ []

abbrev offer : SuccessorOffer
offer = offer_for (753026 * day_ms) alice (record { d = designation; day = 752991 * day_ms })

offered :
    successor_offers toy (designation ∷ []) grants members carol (753026 * day_ms) ≡ offer ∷ []
unfolding toy successor_offers unique offers_from offer_of newest_of newest_loop newest_in
    nothing_best bettered bettered_at key_day_ms tagged_key day_prefix exactly after random_suffix
    first_grant_to_admin first_grant_loop claimed_by find any keep is_admin_member add_days ◌===◌
offered = refl

successor_offers-IsStanding_example :
    IsStanding toy (designation ∷ []) grants members carol (753026 * day_ms) offer
successor_offers-IsStanding_example =
    successor_offers-IsStanding toy (designation ∷ []) grants members carol (753026 * day_ms) offer
      (rw offered (first refl))
