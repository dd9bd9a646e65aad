-- ===== src/RateLimiter/Policies.antt =====
-- The policies of src/infrastructure/redis/rate-limiter.ts.
use rest_ecommerce_api.Prelude.Text.{Text, text}
use rest_ecommerce_api.Prelude.{ℕ, Bool, true, false, Option, none, some, List, [], ◌∷◌}

pub record PolicyMatch : Type 0 where
  pub method : Option Text
  pub path_prefix : Option Text

-- `match` is the field `matching`.
pub record RateLimitPolicy : Type 0 where
  pub scope : Text
  pub identifier : Text
  pub limit : ℕ
  pub window_ms : ℕ
  pub key_prefix : Text
  pub matching : Option PolicyMatch
  pub fail_closed : Bool

abbrev pub global_policy : RateLimitPolicy
global_policy = record {
  scope = text "GLOBAL";
  identifier = text "ip";
  limit = 200;
  window_ms = 60000;
  key_prefix = text "rl:g";
  matching = none;
  fail_closed = false;
}

abbrev pub login_policy : RateLimitPolicy
login_policy = record {
  scope = text "LOGIN";
  identifier = text "ip+acct";
  limit = 5;
  window_ms = 900000;
  key_prefix = text "rl:login";
  matching =
      some (record { method = some (text "POST"); path_prefix = some (text "/api/v1/auth/login") });
  fail_closed = true;
}

abbrev pub register_policy : RateLimitPolicy
register_policy = record {
  scope = text "REGISTER";
  identifier = text "ip";
  limit = 10;
  window_ms = 3600000;
  key_prefix = text "rl:register";
  matching =
      some
        (record { method = some (text "POST"); path_prefix = some (text "/api/v1/auth/register") });
  fail_closed = false;
}

abbrev pub otp_policy : RateLimitPolicy
otp_policy = record {
  scope = text "OTP";
  identifier = text "email";
  limit = 5;
  window_ms = 600000;
  key_prefix = text "rl:otp";
  matching = some (record { method = none; path_prefix = some (text "/api/v1/auth/otp") });
  fail_closed = true;
}

abbrev pub password_reset_policy : RateLimitPolicy
password_reset_policy = record {
  scope = text "PASSWORD_RESET";
  identifier = text "email";
  limit = 3;
  window_ms = 3600000;
  key_prefix = text "rl:pwreset";
  matching = some (record { method = none; path_prefix = some (text "/api/v1/auth/password") });
  fail_closed = true;
}

abbrev pub checkout_policy : RateLimitPolicy
checkout_policy = record {
  scope = text "CHECKOUT";
  identifier = text "user";
  limit = 10;
  window_ms = 60000;
  key_prefix = text "rl:checkout";
  matching = some (record { method = none; path_prefix = some (text "/api/v1/checkout") });
  fail_closed = false;
}

abbrev pub payment_policy : RateLimitPolicy
payment_policy = record {
  scope = text "PAYMENT";
  identifier = text "user";
  limit = 10;
  window_ms = 60000;
  key_prefix = text "rl:pay";
  matching = some (record { method = none; path_prefix = some (text "/api/v1/payments") });
  fail_closed = true;
}

abbrev pub token_refresh_policy : RateLimitPolicy
token_refresh_policy = record {
  scope = text "TOKEN_REFRESH";
  identifier = text "user";
  limit = 30;
  window_ms = 3600000;
  key_prefix = text "rl:token_refresh";
  matching =
      some
        (record { method = some (text "POST"); path_prefix = some (text "/api/v1/auth/refresh") });
  fail_closed = false;
}

abbrev pub profile_update_policy : RateLimitPolicy
profile_update_policy = record {
  scope = text "PROFILE_UPDATE";
  identifier = text "user";
  limit = 30;
  window_ms = 60000;
  key_prefix = text "rl:profile";
  matching =
      some (record { method = some (text "PATCH"); path_prefix = some (text "/api/v1/users/me") });
  fail_closed = false;
}

abbrev pub phone_change_policy : RateLimitPolicy
phone_change_policy = record {
  scope = text "PHONE_CHANGE";
  identifier = text "user";
  limit = 5;
  window_ms = 600000;
  key_prefix = text "rl:phone";
  matching = some (record { method = none; path_prefix = some (text "/api/v1/users/me/phone") });
  fail_closed = true;
}

abbrev pub session_list_policy : RateLimitPolicy
session_list_policy = record {
  scope = text "SESSION_LIST";
  identifier = text "user";
  limit = 60;
  window_ms = 60000;
  key_prefix = text "rl:sessions_list";
  matching = some (record {
    method = some (text "GET");
    path_prefix = some (text "/api/v1/users/me/sessions");
  });
  fail_closed = false;
}

abbrev pub session_revoke_policy : RateLimitPolicy
session_revoke_policy = record {
  scope = text "SESSION_REVOKE";
  identifier = text "user";
  limit = 20;
  window_ms = 60000;
  key_prefix = text "rl:sessions_revoke";
  matching = some (record { method = none; path_prefix = some (text "/api/v1/users/me/sessions") });
  fail_closed = false;
}

abbrev pub deactivate_policy : RateLimitPolicy
deactivate_policy = record {
  scope = text "DEACTIVATE";
  identifier = text "user";
  limit = 5;
  window_ms = 3600000;
  key_prefix = text "rl:deactivate";
  matching = some (record {
    method = some (text "POST");
    path_prefix = some (text "/api/v1/users/me/deactivate");
  });
  fail_closed = true;
}

abbrev pub search_suggestions_policy : RateLimitPolicy
search_suggestions_policy = record {
  scope = text "SEARCH_SUGGESTIONS";
  identifier = text "ip";
  limit = 120;
  window_ms = 60000;
  key_prefix = text "rl:search_sug";
  matching = some (record {
    method = some (text "GET");
    path_prefix = some (text "/api/v1/products/suggestions");
  });
  fail_closed = false;
}

abbrev pub search_policy : RateLimitPolicy
search_policy = record {
  scope = text "SEARCH";
  identifier = text "ip";
  limit = 60;
  window_ms = 60000;
  key_prefix = text "rl:search";
  matching =
      some (record {
        method = some (text "GET");
        path_prefix = some (text "/api/v1/products/search");
      });
  fail_closed = false;
}

abbrev pub catalog_read_policy : RateLimitPolicy
catalog_read_policy = record {
  scope = text "CATALOG_READ";
  identifier = text "ip";
  limit = 60;
  window_ms = 60000;
  key_prefix = text "rl:catalog_read";
  matching =
      some (record { method = some (text "GET"); path_prefix = some (text "/api/v1/products") });
  fail_closed = false;
}

abbrev pub catalog_browse_policy : RateLimitPolicy
catalog_browse_policy = record {
  scope = text "CATALOG_BROWSE";
  identifier = text "ip";
  limit = 60;
  window_ms = 60000;
  key_prefix = text "rl:catalog_browse";
  matching =
      some (record { method = some (text "GET"); path_prefix = some (text "/api/v1/categories") });
  fail_closed = false;
}

abbrev pub catalog_brands_policy : RateLimitPolicy
catalog_brands_policy = record {
  scope = text "CATALOG_BRANDS";
  identifier = text "ip";
  limit = 60;
  window_ms = 60000;
  key_prefix = text "rl:catalog_brands";
  matching =
      some (record { method = some (text "GET"); path_prefix = some (text "/api/v1/brands") });
  fail_closed = false;
}

abbrev pub catalog_write_policy : RateLimitPolicy
catalog_write_policy = record {
  scope = text "CATALOG_WRITE";
  identifier = text "user";
  limit = 60;
  window_ms = 60000;
  key_prefix = text "rl:catalog_write";
  matching = some (record { method = none; path_prefix = some (text "/api/v1/products") });
  fail_closed = false;
}

abbrev pub catalog_taxonomy_write_policy : RateLimitPolicy
catalog_taxonomy_write_policy = record {
  scope = text "CATALOG_TAXONOMY_WRITE";
  identifier = text "user";
  limit = 60;
  window_ms = 60000;
  key_prefix = text "rl:catalog_taxonomy";
  matching = some (record { method = none; path_prefix = some (text "/api/v1/categories") });
  fail_closed = false;
}

abbrev pub cart_policy : RateLimitPolicy
cart_policy = record {
  scope = text "CART";
  identifier = text "user";
  limit = 60;
  window_ms = 60000;
  key_prefix = text "rl:cart";
  matching = some (record { method = none; path_prefix = some (text "/api/v1/cart") });
  fail_closed = false;
}

abbrev pub wishlist_policy : RateLimitPolicy
wishlist_policy = record {
  scope = text "WISHLIST";
  identifier = text "user";
  limit = 60;
  window_ms = 60000;
  key_prefix = text "rl:wishlist";
  matching = some (record { method = none; path_prefix = some (text "/api/v1/wishlist") });
  fail_closed = false;
}

abbrev pub inventory_read_policy : RateLimitPolicy
inventory_read_policy = record {
  scope = text "INVENTORY_READ";
  identifier = text "ip";
  limit = 60;
  window_ms = 60000;
  key_prefix = text "rl:inventory_read";
  matching =
      some (record { method = some (text "GET"); path_prefix = some (text "/api/v1/inventory") });
  fail_closed = false;
}

abbrev pub inventory_write_policy : RateLimitPolicy
inventory_write_policy = record {
  scope = text "INVENTORY_WRITE";
  identifier = text "user";
  limit = 30;
  window_ms = 60000;
  key_prefix = text "rl:inventory_write";
  matching = some (record { method = none; path_prefix = some (text "/api/v1/inventory") });
  fail_closed = false;
}

abbrev pub media_upload_policy : RateLimitPolicy
media_upload_policy = record {
  scope = text "MEDIA_UPLOAD";
  identifier = text "user";
  limit = 10;
  window_ms = 3600000;
  key_prefix = text "rl:media_upload";
  matching = some (record {
    method = some (text "POST");
    path_prefix = some (text "/api/v1/media/upload-url");
  });
  fail_closed = true;
}

unfoldable pub build_default_policies : List RateLimitPolicy
build_default_policies =
    global_policy ∷ login_policy ∷ register_policy ∷ otp_policy ∷ password_reset_policy
    ∷ checkout_policy ∷ payment_policy ∷ token_refresh_policy ∷ profile_update_policy
    ∷ phone_change_policy ∷ session_list_policy ∷ session_revoke_policy ∷ deactivate_policy
    ∷ search_suggestions_policy ∷ search_policy ∷ catalog_read_policy ∷ catalog_browse_policy
    ∷ catalog_brands_policy ∷ catalog_write_policy ∷ catalog_taxonomy_write_policy ∷ cart_policy
    ∷ wishlist_policy ∷ inventory_read_policy ∷ inventory_write_policy ∷ media_upload_policy ∷ []
