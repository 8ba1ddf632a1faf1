-- ===== src/Swap/Tests/Ids.antt =====
-- Identifiers of offers and of the application at work.
use swapfloor.Common.{◌≡◌, refl, ok, []}
use swapfloor.Js.Text.{codes}
use swapfloor.Js.Value.{undefined}
use swapfloor.Swap.Listings.{
  Listing, normalize_hex32, trimmed, listing_of, derive_offer_listing_id,
  derive_intercomswap_app_hash,
}
use swapfloor.Swap.Valid.Canonical.{listing_text_injective}
use swapfloor.Swap.Tests.Sample.{machine, toy, text, receiver}

abbrev offer : Listing
offer = record {
  signer = codes "aaaaaaaaaaaaaaaaaaaaaaaaaaaaaaaaaaaaaaaaaaaaaaaaaaaaaaaaaaaaaaaa";
  trade_id = codes "offer:1";
  app_hash = [];
  program = codes "Prog";
}

-- The same offer with its signer in upper case and white space around its trade.
listing_text_injective_example : offer ≡ offer
unfolding machine normalize_hex32 trimmed listing_of
listing_text_injective_example =
    listing_text_injective receiver (text "offer:1") undefined (text "Prog")
      (text "AAAAAAAAAAAAAAAAAAAAAAAAAAAAAAAAAAAAAAAAAAAAAAAAAAAAAAAAAAAAAAAA") (text " offer:1 ")
      (text "") (text "Prog") offer offer refl refl refl refl refl refl refl

offer_id :
    derive_offer_listing_id toy receiver (text "offer:1") undefined (text "Prog") ≡ ok (codes "d1")
unfolding machine normalize_hex32 trimmed listing_of derive_offer_listing_id
offer_id = refl

app_hash : derive_intercomswap_app_hash toy (text "Prog") (text "Tag") ≡ ok (codes "d1")
unfolding machine trimmed derive_intercomswap_app_hash
app_hash = refl
