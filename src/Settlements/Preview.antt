-- ===== src/Settlements/Preview.antt =====
-- `getSettlementPreview`: what would be settled, ambassador by ambassador.
use deptoflex_back.Settlements.Service.{currency_of, group_by_profile, is_eligible, total_of}
use deptoflex_back.Prelude.{List, String, [], find_many, length, map, ℕ, ◌+◌, ◌∷◌}
use deptoflex_back.Store.{Commission, Db}

pub record PreviewGroup : Type 0 where
  pub profile_id : ℕ
  pub total_amount : ℕ
  pub currency : String
  pub commission_count : ℕ

pub record Preview : Type 0 where
  pub ambassador_count : ℕ
  pub commission_count : ℕ
  pub grand_total : ℕ
  pub currency : String
  pub ambassadors : List PreviewGroup

unfoldable pub preview_group : ℕ × List Commission → PreviewGroup
preview_group (profile, cs) = record {
  profile_id = profile;
  total_amount = total_of 0 cs;
  currency = currency_of cs;
  commission_count = length cs;
}

-- `ambassadors.reduce((sum, a) => sum.add(new Decimal(a.totalAmount)), new Decimal(0))`
unfoldable pub grand_total_of : ℕ → List PreviewGroup → ℕ
grand_total_of acc [] = acc
grand_total_of acc (g ∷ gs) = grand_total_of (acc + g.total_amount) gs

abbrev pub preview_currency : List PreviewGroup → String
preview_currency [] = "ARS"
preview_currency (g ∷ gs) = g.currency

unfoldable pub settlement_preview : Db → Preview
unfolding preview_group grand_total_of
settlement_preview s =
    let commissions = find_many (is_eligible s) s.commissions in
    let ambassadors = map preview_group (group_by_profile commissions []) in
    record {
      ambassador_count = length ambassadors;
      commission_count = length commissions;
      grand_total = grand_total_of 0 ambassadors;
      currency = preview_currency ambassadors;
      ambassadors = ambassadors;
    }
