-- ===== src/Headers/Security/Defaults.antt =====
-- packages/http-security-headers/index.js: the default of each policy that is a map.
use middy.Prelude.{[], ◌∷◌}
use middy.Texts.{Text, units, Table}

abbrev pub default_content_security_policy : Table Text
default_content_security_policy =
    (units "default-src", units "'report-sample' 'report-sha256'")
    ∷ (units "base-uri", units "'none'")
    ∷ (units "sandbox", units "")
    ∷ (units "form-action", units "'none'")
    ∷ (units "frame-ancestors", units "'none'")
    ∷ (units "report-to", units "default")
    ∷ (units "require-trusted-types-for", units "'script'")
    ∷ (units "upgrade-insecure-requests", units "")
    ∷ []

abbrev pub default_permissions_policy : Table Text
default_permissions_policy =
    (units "accelerometer", units "")
    ∷ (units "all-screens-capture", units "")
    ∷ (units "ambient-light-sensor", units "")
    ∷ (units "autoplay", units "")
    ∷ (units "battery", units "")
    ∷ (units "camera", units "")
    ∷ (units "cross-origin-isolated", units "")
    ∷ (units "display-capture", units "")
    ∷ (units "document-domain", units "")
    ∷ (units "encrypted-media", units "")
    ∷ (units "execution-while-not-rendered", units "")
    ∷ (units "execution-while-out-of-viewport", units "")
    ∷ (units "fullscreen", units "")
    ∷ (units "geolocation", units "")
    ∷ (units "gyroscope", units "")
    ∷ (units "keyboard-map", units "")
    ∷ (units "magnetometer", units "")
    ∷ (units "microphone", units "")
    ∷ (units "midi", units "")
    ∷ (units "monetization", units "")
    ∷ (units "navigation-override", units "")
    ∷ (units "payment", units "")
    ∷ (units "picture-in-picture", units "")
    ∷ (units "publickey-credentials-get", units "")
    ∷ (units "screen-wake-lock", units "")
    ∷ (units "sync-xhr", units "")
    ∷ (units "usb", units "")
    ∷ (units "web-share", units "")
    ∷ (units "xr-spatial-tracking", units "")
    ∷ (units "clipboard-read", units "")
    ∷ (units "clipboard-write", units "")
    ∷ (units "gamepad", units "")
    ∷ (units "speaker-selection", units "")
    ∷ (units "conversion-measurement", units "")
    ∷ (units "focus-without-user-activation", units "")
    ∷ (units "hid", units "")
    ∷ (units "idle-detection", units "")
    ∷ (units "interest-cohort", units "")
    ∷ (units "serial", units "")
    ∷ (units "sync-script", units "")
    ∷ (units "trust-token-redemption", units "")
    ∷ (units "window-placement", units "")
    ∷ (units "vertical-scroll", units "")
    ∷ []
