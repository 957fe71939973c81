-- ===== src/Tests/Code.antt =====
-- The definitions that a run of the code computes with.
-- Opens the code, so that a test can run it.
unfoldable pub code : Unit {0}
unfolding restosync_api.Base.Dict.lookup restosync_api.Base.Dict.insert
    restosync_api.Base.Dict.get_or_zero restosync_api.Base.Int.◌+ℤ◌ restosync_api.Base.Int.◌-ℤ◌
    restosync_api.Base.Int.◌*ℤ◌ restosync_api.Base.Int.sum_by restosync_api.Base.Search.first_free
    restosync_api.Base.Text.is_space restosync_api.Base.Text.is_digit
    restosync_api.Base.Text.decimal_onto restosync_api.Base.Text.decimal
    restosync_api.Base.Text.parse_onto restosync_api.Base.Text.parse_decimal
    restosync_api.Billing.text_or restosync_api.Billing.date_of_seconds
    restosync_api.Billing.new_subscription restosync_api.Billing.changed_subscription
    restosync_api.Billing.create_subscription restosync_api.Billing.find_by_subscription_id
    restosync_api.Billing.set_status restosync_api.Billing.update_subscription_status
    restosync_api.Billing.find_by_stripe_customer_id restosync_api.Billing.create_unless
    restosync_api.Billing.on_subscription_created restosync_api.Billing.on_subscription_updated
    restosync_api.Billing.on_subscription_deleted restosync_api.Billing.on_invoice_payment_failed
    restosync_api.Billing.handle_billing_event restosync_api.Billing.handle_webhook
    restosync_api.CashRegister.is_open_in restosync_api.CashRegister.refuse_open
    restosync_api.CashRegister.counts_for restosync_api.CashRegister.opened
    restosync_api.CashRegister.closed restosync_api.CashRegister.by_method_raw
    restosync_api.CashRegister.keep_positive restosync_api.CashRegister.by_method_of
    restosync_api.CashRegister.by_method restosync_api.CashRegister.summary_of
    restosync_api.CashRegister.session_in_restaurant restosync_api.CashRegister.active_session
    restosync_api.CashRegister.open_session restosync_api.CashRegister.close_session
    restosync_api.CashRegister.get_session_summary restosync_api.CashRegister.get_current_summary
    restosync_api.CashRegister.Till.handle restosync_api.CashRegister.Till.handle_all
    restosync_api.Csv.value_at restosync_api.Csv.doubled restosync_api.Csv.escape_csv_field
    restosync_api.Csv.join restosync_api.Csv.headers restosync_api.Csv.line_of
    restosync_api.Csv.print_csv restosync_api.Csv.to_csv restosync_api.Csv.Parser.next_place
    restosync_api.Csv.Parser.effect restosync_api.Csv.Parser.read_from
    restosync_api.Csv.Parser.parse_csv restosync_api.Inventory.item_in_restaurant
    restosync_api.Inventory.set_quantity restosync_api.Inventory.adjustment
    restosync_api.Inventory.adjusted restosync_api.Inventory.alert_of restosync_api.Inventory.alerts
    restosync_api.Inventory.find_item restosync_api.Inventory.create restosync_api.Inventory.update
    restosync_api.Inventory.remove restosync_api.Inventory.write_adjustment
    restosync_api.Inventory.adjust restosync_api.Inventory.find_low_stock
    restosync_api.Menu.Categories.new_category restosync_api.Menu.Categories.changed_category
    restosync_api.Menu.Categories.ensure_category restosync_api.Menu.Categories.create_category
    restosync_api.Menu.Categories.find_categories restosync_api.Menu.Categories.find_category
    restosync_api.Menu.Categories.update_category restosync_api.Menu.Categories.remove_category
    restosync_api.Menu.Items.skip restosync_api.Menu.Items.total_pages
    restosync_api.Menu.Items.paginate restosync_api.Menu.Items.new_menu_item
    restosync_api.Menu.Items.changed_menu_item restosync_api.Menu.Items.with_groups
    restosync_api.Menu.Items.ensure_menu_item restosync_api.Menu.Items.create_menu_item
    restosync_api.Menu.Items.is_listed restosync_api.Menu.Items.find_menu_items
    restosync_api.Menu.Items.find_menu_item restosync_api.Menu.Items.update_menu_item
    restosync_api.Menu.Items.deactivate restosync_api.Menu.Items.release_references
    restosync_api.Menu.Items.remove_menu_item restosync_api.Modifiers.set_size
    restosync_api.Modifiers.include_modifiers restosync_api.Modifiers.load_groups
    restosync_api.Modifiers.index_modifiers restosync_api.Modifiers.index_groups
    restosync_api.Modifiers.check_hit restosync_api.Modifiers.check_ids
    restosync_api.Modifiers.count_hit restosync_api.Modifiers.count_by_group
    restosync_api.Modifiers.effective_min restosync_api.Modifiers.check_group
    restosync_api.Modifiers.check_groups restosync_api.Modifiers.select
    restosync_api.Modifiers.select_from restosync_api.Modifiers.resolve_in
    restosync_api.Modifiers.resolve_selections restosync_api.Modifiers.Editing.assert_min_max
    restosync_api.Modifiers.Editing.new_group restosync_api.Modifiers.Editing.new_modifier
    restosync_api.Modifiers.Editing.changed_group restosync_api.Modifiers.Editing.changed_modifier
    restosync_api.Modifiers.Editing.ensure_group restosync_api.Modifiers.Editing.ensure_modifier
    restosync_api.Modifiers.Editing.create_modifiers restosync_api.Modifiers.Editing.create_group
    restosync_api.Modifiers.Editing.list_groups_for_item
    restosync_api.Modifiers.Editing.update_group restosync_api.Modifiers.Editing.remove_group
    restosync_api.Modifiers.Editing.add_modifier restosync_api.Modifiers.Editing.update_modifier
    restosync_api.Modifiers.Editing.remove_modifier restosync_api.Names.trim_start
    restosync_api.Names.trim_end restosync_api.Names.trim restosync_api.Names.collapse
    restosync_api.Names.normalize_name restosync_api.Names.same_name
    restosync_api.Orders.Creation.is_active_order restosync_api.Orders.Creation.stored_modifiers
    restosync_api.Orders.Creation.line_total restosync_api.Orders.Creation.currency_of
    restosync_api.Orders.Creation.index_items restosync_api.Orders.Creation.priced_line
    restosync_api.Orders.Creation.price_lines restosync_api.Orders.Creation.active_order
    restosync_api.Orders.Creation.look_at_table restosync_api.Orders.Creation.find_table
    restosync_api.Orders.Creation.admit_type restosync_api.Orders.Creation.admit
    restosync_api.Orders.Creation.item_row restosync_api.Orders.Creation.create_rows
    restosync_api.Orders.Creation.new_order restosync_api.Orders.Creation.insert_order
    restosync_api.Orders.Creation.create_new restosync_api.Orders.Creation.create
    restosync_api.Orders.Editing.new_item restosync_api.Orders.Editing.update_item
    restosync_api.Orders.Editing.floor_percent restosync_api.Orders.Editing.resolve_discount
    restosync_api.Orders.Editing.kept_percent restosync_api.Orders.Editing.discounted
    restosync_api.Orders.Editing.discount_log restosync_api.Orders.Editing.find_editable
    restosync_api.Orders.Editing.available_item restosync_api.Orders.Editing.find_item
    restosync_api.Orders.Editing.add_item restosync_api.Orders.Editing.update_item_quantity
    restosync_api.Orders.Editing.remove_item restosync_api.Orders.Editing.apply_discount
    restosync_api.Orders.Lifecycle.in_restaurant restosync_api.Orders.Lifecycle.set_status
    restosync_api.Orders.Lifecycle.find_order restosync_api.Orders.Lifecycle.find_one
    restosync_api.Orders.Lifecycle.find_open restosync_api.Orders.Lifecycle.update_status
    restosync_api.Orders.Lifecycle.confirm_found restosync_api.Orders.Lifecycle.mark_confirmed
    restosync_api.Orders.Lifecycle.confirm_order restosync_api.Orders.Status.transitions
    restosync_api.Orders.Status.includes_status restosync_api.Orders.Status.can_transition
    restosync_api.Orders.Status.changes restosync_api.Orders.Totals.is_editable
    restosync_api.Orders.Totals.discount_of restosync_api.Orders.Totals.total_of
    restosync_api.Orders.Totals.set_totals restosync_api.Orders.Totals.include_items
    restosync_api.Orders.Totals.items_of restosync_api.Orders.Totals.subtotal_of
    restosync_api.Orders.Totals.recalculate_totals restosync_api.Payments.is_paid
    restosync_api.Payments.pos_payment restosync_api.Payments.intent_payment
    restosync_api.Payments.is_short restosync_api.Payments.settle restosync_api.Payments.find_by_ref
    restosync_api.Payments.upsert_intent restosync_api.Payments.create_intent
    restosync_api.Payments.settle_order restosync_api.Payments.sell
    restosync_api.Payments.decrement_item restosync_api.Payments.decrement_inventory_for_order
    restosync_api.Payments.charge restosync_api.Payments.checkout
    restosync_api.Payments.warn_missing restosync_api.Payments.unless_seen
    restosync_api.Payments.look_up_intent restosync_api.Payments.find_payment_for_intent
    restosync_api.Payments.find_payment_for_event restosync_api.Payments.settle_event
    restosync_api.Payments.succeed restosync_api.Payments.fail
    restosync_api.Payments.on_payment_succeeded restosync_api.Payments.on_payment_failed
    restosync_api.Payments.handle_type restosync_api.Payments.handle_event
    restosync_api.Realtime.emit restosync_api.Realtime.emit_to_customer
    restosync_api.Realtime.emit_for_order restosync_api.Realtime.emit_status_changed
    restosync_api.Realtime.emit_totals_changed restosync_api.Realtime.emit_table_status_changed
    restosync_api.Realtime.emit_realtime_event restosync_api.Reports.day_range
    restosync_api.Reports.days_range restosync_api.Reports.is_sale restosync_api.Reports.is_sold_in
    restosync_api.Reports.day_of restosync_api.Reports.totals_by_day
    restosync_api.Reports.counts_by_day restosync_api.Reports.sort_by
    restosync_api.Reports.amount_of restosync_api.Reports.positive_amounts
    restosync_api.Reports.orders_in restosync_api.Reports.get_daily_summary
    restosync_api.Reports.get_payment_method_breakdown
    restosync_api.Reports.get_payment_method_breakdown_range
    restosync_api.Reports.get_best_selling_products restosync_api.Reports.get_closed_tickets
    restosync_api.Reports.get_daily_summary_range restosync_api.Reports.get_ticket_count_by_day
    restosync_api.Reservations.is_terminable restosync_api.Reservations.default_tolerance
    restosync_api.Reservations.half restosync_api.Reservations.set_reservation_status
    restosync_api.Reservations.deposit_confirmed restosync_api.Reservations.base_subtotal
    restosync_api.Reservations.reservation_in_restaurant restosync_api.Reservations.reservation_row
    restosync_api.Reservations.free_table restosync_api.Reservations.create
    restosync_api.Reservations.find_reservation restosync_api.Reservations.commit_table
    restosync_api.Reservations.confirm_deposit restosync_api.Reservations.confirm_typed
    restosync_api.Reservations.confirm restosync_api.Reservations.seat_party
    restosync_api.Reservations.seat_with_preorder restosync_api.Reservations.apply_deposit
    restosync_api.Reservations.seat_deposit_only restosync_api.Reservations.seat_informal
    restosync_api.Reservations.seat restosync_api.Reservations.held_table
    restosync_api.Reservations.give_up restosync_api.Reservations.terminate
    restosync_api.Reservations.no_show restosync_api.Reservations.cancel
    restosync_api.Tables.is_active restosync_api.Tables.new_table restosync_api.Tables.changed_table
    restosync_api.Tables.moved_table restosync_api.Tables.ensure_table
    restosync_api.Tables.assert_table_editable restosync_api.Tables.assert_name_unique
    restosync_api.Tables.active_order_of restosync_api.Tables.with_active_order
    restosync_api.Tables.find_all restosync_api.Tables.find_one restosync_api.Tables.create
    restosync_api.Tables.update restosync_api.Tables.update_layout restosync_api.Tables.remove
    restosync_api.TenantGuard.has_name restosync_api.TenantGuard.is_guarded
    restosync_api.TenantGuard.tenant_guard_operation restosync_api.World.pure
    restosync_api.World.throw restosync_api.World.gets restosync_api.World.transaction
    restosync_api.World.or_throw restosync_api.World.modify restosync_api.World.guard
    restosync_api.World.◌>>=◌ restosync_api.World.attempt restosync_api.World.update_or_throw
    restosync_api.World.create_row restosync_api.World.delete_row restosync_api.World.Owned.owned
    restosync_api.World.Owned.ensure_owned restosync_api.World.Removal.detach_tables
    restosync_api.World.Unique.assert_unique restosync_api.Zones.leading_word
    restosync_api.Zones.used_suffixes restosync_api.Zones.next_suffix restosync_api.Zones.table_name
    restosync_api.Zones.is_in_use restosync_api.Zones.is_piso restosync_api.Zones.prefix_of
    restosync_api.Zones.used_codes restosync_api.Zones.is_code_used restosync_api.Zones.code_number
    restosync_api.Zones.compute_zone_code restosync_api.Zones.zones_of restosync_api.Zones.new_zone
    restosync_api.Zones.create restosync_api.Zones.find_all restosync_api.Zones.ensure_zone
    restosync_api.Zones.assert_code_unique restosync_api.Zones.changed_zone
    restosync_api.Zones.update restosync_api.Zones.names_of_tables
    restosync_api.Zones.get_next_table_name restosync_api.Zones.is_blocking
    restosync_api.Zones.delete_zone restosync_api.Zones.remove
code = tt
