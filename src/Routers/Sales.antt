-- ===== src/Routers/Sales.antt =====
-- backend/app/sales/router.py: the endpoints of one sale and of its payments.
use realesatecrm.Base.{ℕ, String, not, some, ◌==◌}
use realesatecrm.Db.Rows.{Sale, Payment}
use realesatecrm.Db.Action.{Action, Engine, ◌>>=◌, ◌>>◌, pure, raise_if}
use realesatecrm.Security.Context.{RequestContext}
use realesatecrm.Sales.Repository.{SaleCreate}
use realesatecrm.Sales.Service as Sales
use realesatecrm.Sales.Payments as Payments
use realesatecrm.Routers.Guards.{require_permission, tenant_scope, some_tenant, ensure_access}

unfoldable pub get_sale : ℕ → RequestContext → Action Sale
unfolding require_permission tenant_scope ensure_access Sales.get_sale
get_sale id context = do
  require_permission "property_sale.read" context
  scope ← tenant_scope context
  sale ← Sales.get_sale scope id
  ensure_access context sale.tenant_id
  pure sale

module _ (eng : Engine) where
  unfoldable pub create_sale : SaleCreate → RequestContext → Action Sale
  unfolding require_permission tenant_scope some_tenant
  create_sale d context = do
    require_permission "property_sale.create" context
    scope ← tenant_scope context
    t ← some_tenant scope
    Sales.create_sale eng t (some context.user_id) d

  unfoldable pub update_sale : ℕ → String → RequestContext → Action Sale
  unfolding require_permission tenant_scope ensure_access Sales.get_sale
  update_sale id status context = do
    require_permission "property_sale.update" context
    scope ← tenant_scope context
    sale ← Sales.get_sale scope id
    ensure_access context sale.tenant_id
    Sales.update_sale eng scope id status

  unfoldable pub create_payment : ℕ → Payments.PaymentCreate → RequestContext → Action Payment
  unfolding require_permission tenant_scope some_tenant ensure_access Sales.get_sale
  create_payment sale_id d context = do
    require_permission "property_sale_payment.create" context
    scope ← tenant_scope context
    t ← some_tenant scope
    sale ← Sales.get_sale (some t) sale_id
    ensure_access context sale.tenant_id
    Payments.create_payment eng t sale_id (some context.user_id) d

  unfoldable pub update_payment : ℕ → ℕ → Payments.PaymentUpdate → RequestContext → Action Payment
  unfolding require_permission tenant_scope ensure_access Sales.get_sale Payments.get_payment
  update_payment sale_id payment_id d context = do
    require_permission "property_sale_payment.update" context
    scope ← tenant_scope context
    sale ← Sales.get_sale scope sale_id
    ensure_access context sale.tenant_id
    payment ← Payments.get_payment scope payment_id
    raise_if (not (payment.sale_id == sale_id)) Payments.payment_not_found
    Payments.update_payment eng scope payment_id d
