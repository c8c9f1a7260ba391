-- ===== src/Extension/Sender/Laws.antt =====
-- Who counts as what.
use nopass.Prelude.{◌≡◌, false, some, arith, String}
use nopass.Extension.Sender.{Sender, Browser, is_extension_page, sender_origin}

module _ (browser : Browser) where
  -- A sender is never both a page of the extension and a content script with an origin.
  pub sender_origin-page :
      (sender : Sender) {origin : String}
      → sender_origin browser sender ≡ some origin
      → is_extension_page browser sender ≡ false
  unfolding sender_origin is_extension_page
  sender_origin-page sender h = ground arith
