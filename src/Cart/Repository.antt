-- ===== src/Cart/Repository.antt =====
-- src/modules/cart/infrastructure/database/cart.repository.ts over the collection of carts. The
-- operator `$` of an update stands for the first line that the filter matched.
use rest_ecommerce_api.Prelude.Text.{Text, ◌==◌}
use rest_ecommerce_api.Prelude.{
  ℕ, ◌+◌, ◌*◌, Bool, true, false, ◌&&◌, ◌||◌, not, Option, none, some, List, [], ◌∷◌, ◌++◌, ℤ, ◌+ℤ◌,
  ◌-ℤ◌, leb_ℤ, leb, nat_eq, any, first, modify_first, filter_by, length, if◌then◌else◌,
}
use rest_ecommerce_api.Mongo.{Collection, inserted, duplicate, failed}
use rest_ecommerce_api.Errors.{
  Action, ok, err, cart_item_not_found, cart_stale, quantity_exceeds_max, cart_creation_failed,
  duplicate_key, write_failed, pure, raise, or_raise, attempt, ◌>>=◌, ◌>>◌,
}
use rest_ecommerce_api.Cart.Entity.{
  Cart, CartItem, active, converted, status_eq, cart_max_qty, cart_ttl_days,
}

abbrev pub Store : Type 0
Store = List Cart

-- The time, and the identifiers that a request draws.
pub record Request : Type 0 where
  pub now : ℕ
  pub uuid : ℕ → Text

pub record AddItemResult : Type 0 where
  pub cart : Cart
  pub created : Bool

abbrev pub of_user : Text → Cart → Bool
of_user user c = c.user_id == user

abbrev pub is_active : Cart → Bool
is_active c = status_eq c.status active

-- `expectedVersion === null ? {} : { version: expectedVersion }`
abbrev pub has_version : Option ℕ → Cart → Bool
has_version none c = true
has_version (some v) c = nat_eq c.version v

abbrev pub has_sku : Text → CartItem → Bool
has_sku sku line = line.sku == sku

abbrev pub has_id : Text → CartItem → Bool
has_id id line = line.item_id == id

abbrev pub bump : ℕ → Cart → Cart
bump now c = record c { version = c.version + 1; updated_at = now; last_activity_at = now }

abbrev pub open_cart : Text → Option ℕ → Cart → Bool
open_cart user version c = of_user user c && is_active c && has_version version c

abbrev pub can_merge : Text → Option ℕ → Text → Cart → Bool
can_merge user version sku c = open_cart user version c && any (has_sku sku) c.items

abbrev pub merged_line : ℕ → CartItem → CartItem → CartItem
merged_line now item line = record line {
  quantity = line.quantity +ℤ item.quantity;
  price = item.price;
  title = item.title;
  variant_label = item.variant_label;
  image_url = item.image_url;
  updated_at = now;
}

abbrev pub merged_cart : ℕ → CartItem → Cart → Cart
merged_cart now item c = record (bump now c) {
  items = modify_first (has_sku item.sku) (merged_line now item) c.items;
}

-- `'items.50': { $exists: false }`: there is no line at index 50.
abbrev pub can_push : Text → Option ℕ → Text → Cart → Bool
can_push user version sku c =
    open_cart user version c && not (any (has_sku sku) c.items) && leb (length c.items) 50

abbrev pub pushed_cart : ℕ → CartItem → Cart → Cart
pushed_cart now item c = record (bump now c) {
  items = c.items ++ record item { updated_at = now } ∷ [];
}

abbrev pub can_change : Text → Option ℕ → Text → Cart → Bool
can_change user version id c = open_cart user version c && any (has_id id) c.items

abbrev pub changed_cart : ℕ → Text → ℤ → Cart → Cart
changed_cart now id q c = record (bump now c) {
  items = modify_first (has_id id) (λ line. record line { quantity = q; updated_at = now }) c.items;
}

abbrev pub pulled_cart : ℕ → Text → Cart → Cart
pulled_cart now id c = record (bump now c) {
  items = filter_by (λ line. not (has_id id line)) c.items;
}

abbrev pub cleared_cart : ℕ → Cart → Cart
cleared_cart now c = record (bump now c) { items = [] }

abbrev pub can_roll_back : Text → Text → Cart → Bool
can_roll_back user id c = of_user user c && any (has_id id) c.items

-- The roll back sets the quantity alone; the time is set by the schema.
abbrev pub rolled_back_cart : ℕ → Text → ℤ → Cart → Cart
rolled_back_cart now id q c = record c {
  items = modify_first (has_id id) (λ line. record line { quantity = q }) c.items;
  version = c.version + 1;
  updated_at = now;
}

abbrev pub reactivated : ℕ → Cart → Cart
reactivated now c = record (bump now c) {
  status = active;
  expires_at = now + cart_ttl_days * 24 * 60 * 60 * 1000;
}

abbrev pub new_cart : Request → Text → Cart
new_cart c user = record {
  id = c.uuid 0;
  user_id = user;
  status = active;
  items = [];
  version = 0;
  created_at = c.now;
  updated_at = c.now;
  last_activity_at = c.now;
  expires_at = c.now + cart_ttl_days * 24 * 60 * 60 * 1000;
}

-- The unique indexes of the schema.
abbrev pub cart_clash : Cart → Cart → Bool
cart_clash a b = a.user_id == b.user_id || a.id == b.id

module _ (db : Collection Cart) where
  unfoldable pub find : (Cart → Bool) → Action Store (Option Cart)
  find filter s = (ok (db.find_one filter s), s)

  unfoldable pub update : (Cart → Bool) → (Cart → Cart) → Action Store (Option Cart)
  update filter change s =
      let (found, s') = db.find_one_and_update filter change s in (ok found, s')

  unfoldable pub get_by_user_id : Text → Action Store (Option Cart)
  get_by_user_id user = find (of_user user)

  unfoldable pub save : Cart → Action Store (Unit {0})
  save cart s = elim (db.insert_one cart_clash cart s) [
    | inserted ds ↦ (ok tt, ds)
    | duplicate ↦ (err duplicate_key, s)
    | failed ↦ (err write_failed, s)
  ]

  -- The `catch` behind the creation: another request may have created the cart.
  unfoldable pub create_cart : Request → Text → Action Store Cart
  create_cart c user = do
    outcome ← attempt (save (new_cart c user))
    elim outcome [
      | ok _ ↦ do found ← get_by_user_id user; or_raise found cart_creation_failed
      | err _ ↦ do raced ← get_by_user_id user; or_raise raced cart_creation_failed
    ]

  unfoldable pub reopen : Request → Text → Cart → Action Store Cart
  reopen c user existing = do
    opened ← update (λ d. of_user user d && status_eq d.status existing.status) (reactivated c.now)
    elim opened [ some cart ↦ pure cart | none ↦ pure existing ]

  unfoldable pub get_or_create : Request → Text → Action Store Cart
  get_or_create c user = do
    found ← get_by_user_id user
    elim found [
      | some existing ↦ if is_active existing then pure existing else reopen c user existing
      | none ↦ create_cart c user
    ]

  -- The merge went through: a quantity beyond 50 is taken back.
  unfoldable pub check_merged : ℕ → Text → CartItem → Cart → Action Store AddItemResult
  check_merged now user item cart = elim (first (has_sku item.sku) cart.items) [
    | none ↦ pure (record { cart = cart; created = false })
    | some line ↦
        if not (leb_ℤ line.quantity cart_max_qty)
        then (do
          update (can_roll_back user line.item_id)
              (rolled_back_cart now line.item_id (line.quantity -ℤ item.quantity))
          raise quantity_exceeds_max)
        else pure (record { cart = cart; created = false })
  ]

  -- Every branch behind a failed merge and a failed push throws.
  unfoldable pub push_item : Request → Text → Option ℕ → CartItem → Action Store AddItemResult
  push_item c user version item = do
    pushed ← update (can_push user version item.sku) (pushed_cart c.now item)
    elim pushed [
      | some cart ↦ pure (record { cart = cart; created = true })
      | none ↦ do current ← get_by_user_id user; raise cart_stale
    ]

  unfoldable pub add_or_merge_item :
      Request → Text → Option ℕ → CartItem → Action Store AddItemResult
  add_or_merge_item c user version item = do
    get_or_create c user
    merged ← update (can_merge user version item.sku) (merged_cart c.now item)
    elim merged [
      | some cart ↦ check_merged c.now user item cart
      | none ↦ push_item c user version item
    ]

  unfoldable pub update_quantity : Request → Text → Text → ℤ → ℕ → Action Store Cart
  update_quantity c user id q version = do
    changed ← update (can_change user (some version) id) (changed_cart c.now id q)
    elim changed [
      | some cart ↦ pure cart
      | none ↦ do
        found ← get_by_user_id user
        current ← or_raise found cart_item_not_found
        if any (has_id id) current.items then raise cart_stale else raise cart_item_not_found
    ]

  unfoldable pub remove_item : Request → Text → Text → Option ℕ → Action Store Cart
  remove_item c user id version = do
    pulled ← update (can_change user version id) (pulled_cart c.now id)
    elim pulled [
      | some cart ↦ pure cart
      | none ↦ do
        found ← get_by_user_id user
        elim found [
          | none ↦ get_or_create c user
          | some current ↦
              if any (has_id id) current.items then raise cart_stale else raise cart_item_not_found
        ]
    ]

  unfoldable pub clear : Request → Text → Option ℕ → Action Store Cart
  clear c user version = do
    cleared ← update (open_cart user version) (cleared_cart c.now)
    elim cleared [
      | some cart ↦ pure cart
      | none ↦ do
        found ← get_by_user_id user
        elim found [ none ↦ get_or_create c user | some current ↦ raise cart_stale ]
    ]

  unfoldable pub mark_converted : Request → Text → Action Store (Unit {0})
  mark_converted c user = do
    update (open_cart user none)
        (λ d. record d { status = converted; updated_at = c.now; version = d.version + 1 })
    pure tt
