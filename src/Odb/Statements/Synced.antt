-- ===== src/Odb/Statements/Synced.antt =====
-- The invariant of the versions: a binding that is not stale leads into the image as it stands.
use client_server_db.Prelude.{ℕ, Text, ◌≤◌, ◌<◌, ◌≡◌, ◌≢◌, refl, sym, ◌∙◌, Bool, false, arith, ◌||◌}
use client_server_db.Floats.{Floats}
use client_server_db.Odb.Traits.{Traits}
use client_server_db.Odb.Traits.Laws.{Laws}
use client_server_db.Odb.Image.{Object, Image, changed, to_image}
use client_server_db.Odb.Binding.{
  StatementKind, statement_select, statement_insert, statement_update, bind, id_bind, texts, Column,
  client_key, system_ip, system_name,
}
use client_server_db.Odb.Statements.{Statements, Binding, is_stale, rebound}

module _ {floats : Floats} (traits : Traits floats) where
  -- A binding for a kind of statement, and the version of the image that it was written at.
  pub record IsBound (sk : StatementKind) (im : Image traits) (v : ℕ) (b : Binding traits)
      : Type 0 where
    pub no_later : v ≤ im.version
    pub leads : b.version ≢ 0 → v ≡ im.version → b.bind ≡ bind traits im sk

  pub record IsSynced (s : Statements traits) : Type 0 where
    pub insert : IsBound statement_insert s.image s.insert_image_version s.insert_image_binding
    pub update : IsBound statement_update s.image s.update_image_version s.update_image_binding
    pub select : IsBound statement_select s.image s.select_image_version s.select_image_binding
    pub ids : s.id_image_binding.version ≢ 0 → s.id_image_binding.bind ≡ id_bind traits s.id_image

  -- An image of a later version: every binding is stale.
  pub IsBound-later :
      {sk : StatementKind} {im im' : Image traits} {v : ℕ} {b : Binding traits}
      → im.version < im'.version
      → IsBound sk im v b
      → IsBound sk im' v b
  IsBound-later lt h = record {
    no_later = omega (arith, h.no_later);
    leads = λ _ e. absurd (omega (arith, h.no_later, lt, e));
  }

  -- An image of the same version that is bound alike.
  pub IsBound-alike :
      {sk : StatementKind} {im im' : Image traits} {v : ℕ} {b : Binding traits}
      → im'.version ≡ im.version
      → bind traits im' sk ≡ bind traits im sk
      → IsBound sk im v b
      → IsBound sk im' v b
  IsBound-alike e same h = record {
    no_later = omega (arith, h.no_later, e);
    leads = λ p q. h.leads p (q ∙ e) ∙ sym same;
  }

  -- A binding that has been tested leads into the image, and is as good for later.
  pub record IsFresh (sk : StatementKind) (im : Image traits) (v : ℕ) (b : Binding traits)
      : Type 0 where
    pub now : b.bind ≡ bind traits im sk
    pub later : IsBound sk im v b

  pub rebound-IsFresh :
      (sk : StatementKind) (im : Image traits) (b : Binding traits)
      → IsFresh sk im im.version (rebound traits (bind traits im sk) b)
  rebound-IsFresh sk im b = record {
    now = refl;
    later = record { no_later = omega arith; leads = λ _ _. refl };
  }

  pub not_stale :
      (v w : ℕ) (b : Binding traits) → is_stale traits v w b ≡ false → (w ≡ v) × (b.version ≢ 0)
  not_stale v w b h = (ground arith, λ z. ground arith)

  pub kept-IsFresh :
      {sk : StatementKind} {im : Image traits} {v : ℕ} {b : Binding traits}
      → is_stale traits im.version v b ≡ false
      → IsBound sk im v b
      → IsFresh sk im v b
  kept-IsFresh {sk} {im} {v} {b} e h =
      let n = not_stale im.version v b e in record { now = h.leads n.1 n.0; later = h }

  or_false : (a b : Bool) → (a || b) ≡ false → (a ≡ false) × (b ≡ false)
  or_false a b h = (ground arith, ground arith)

  unchanged : (a b : ℕ) → changed a b ≡ false → a ≡ b
  unchanged a b h = ground arith

  module _ (laws : Laws traits) where
    -- A text that fits its buffer leaves the binding of the buffer as it is.
    texts_same :
        (b : traits.Buffer) (c : Column) (s : Text)
        → changed (traits.capacity b) (traits.capacity (traits.string_image b s).0) ≡ false
        → texts traits c (traits.string_image b s).0 ≡ texts traits c b
    texts_same b c s h =
        let same = unchanged _ _ h in rw (sym (laws.string_image_data b s same), sym same) refl

    -- Where no buffer grows, an image is bound as it was.
    pub bind-to_image :
        (i : Image traits) (o : Object floats) (sk : StatementKind)
        → (to_image traits i o).1 ≡ false
        → bind traits (to_image traits i o).0 sk ≡ bind traits i sk
    unfolding to_image bind
    bind-to_image i o sk h =
        let h1 = or_false _ _ h in
        let h2 = or_false _ _ h1.1 in
        rw
          (
            texts_same i.client_key_value client_key o.info.client_key h1.0,
            texts_same i.system_info_value.system_ip_value system_ip o.info.system_info.system_ip
                h2.0,
            texts_same i.system_info_value.system_name_value system_name
                o.info.system_info.system_name h2.1,
          )
          refl
