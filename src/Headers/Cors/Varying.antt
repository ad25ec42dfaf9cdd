-- ===== src/Headers/Cors/Varying.antt =====
-- packages/http-cors/index.js: `Vary: Origin` on every response.
use middy.Texts.{Text, units}
use middy.Headers.Cors.Options.{Options, Platform}
use middy.Headers.Cors.Modify.{Headers}

module _ (platform : Platform) where
  abbrev origin_token : Text
  origin_token = platform.lower (units "Origin")
