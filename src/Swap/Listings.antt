-- ===== src/Swap/Listings.antt =====
-- src/swap/listings.js and src/swap/app.js: the identifiers of offers and of the application, as
-- hashes of canonical texts.
use swapfloor.Common.{
  ◌&&◌, all, length, ◌∷◌, ◌++◌, Result, ok, err, thrown, ◌>>=◌, if◌then◌else◌, ◌==◌,
}
use swapfloor.Js.Text.{Text, codes, trim, is_hex_digit, is_empty, to_lower_case}
use swapfloor.Js.Value.{Value, str, is_defined, to_text}
use swapfloor.Js.Convert.{or_empty, normalize_hex}
use swapfloor.Swap.Envelope.{Crypto}

unfoldable pub normalize_hex32 : Value → Result Text
normalize_hex32 hex =
    if all is_hex_digit (normalize_hex hex) && length (normalize_hex hex) == 64
    then ok (normalize_hex hex)
    else err (thrown "must be 32-byte hex")

-- `String(v || '').trim()`
unfoldable pub trimmed : Value → Text
trimmed v = trim (to_text (or_empty v))

-- What identifies an offer.
pub record Listing : Type 0 where
  pub signer : Text
  pub trade_id : Text
  pub app_hash : Text
  pub program : Text

unfoldable pub listing_of : Value → Value → Value → Value → Result Listing
listing_of signer_hex offer_trade_id app_hash program = do
  signer ← normalize_hex32 signer_hex
  if is_empty (trimmed offer_trade_id)
      then err (thrown "offerTradeId is required")
      else ok (record {
        signer = signer;
        trade_id = trimmed offer_trade_id;
        app_hash = to_lower_case (trimmed app_hash);
        program = trimmed program;
      })

unfoldable pub listing_text : Listing → Text
listing_text l =
    codes "offer_listing_v1:"
    ++ (l.signer ++ (b':' ∷ (l.trade_id ++ (b':' ∷ (l.app_hash ++ (b':' ∷ l.program))))))

unfoldable pub derive_offer_listing_id : Crypto → Value → Value → Value → Value → Result Text
derive_offer_listing_id crypto signer_hex offer_trade_id app_hash program = do
  listing ← listing_of signer_hex offer_trade_id app_hash program
  ok (crypto.sha256 (listing_text listing))

unfoldable pub app_text : Text → Text → Text
app_text tag program = codes "app=" ++ (tag ++ (codes ";solana_program=" ++ program))

abbrev pub intercomswap_app_tag : Text
intercomswap_app_tag = codes "intercomswapbtcusdt"

-- The tag, by default the constant.
abbrev pub tag_of : Value → Text
tag_of app_tag =
    to_lower_case (trimmed (if is_defined app_tag then app_tag else str intercomswap_app_tag))

unfoldable pub derive_intercomswap_app_hash : Crypto → Value → Value → Result Text
derive_intercomswap_app_hash crypto solana_program_id app_tag =
    if is_empty (trimmed solana_program_id)
    then err (thrown "deriveIntercomswapAppHash: solanaProgramId is required")
    else if is_empty (tag_of app_tag)
    then err (thrown "deriveIntercomswapAppHash: appTag is required")
    else ok (crypto.sha256 (app_text (tag_of app_tag) (trimmed solana_program_id)))
