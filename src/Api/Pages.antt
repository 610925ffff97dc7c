-- ===== src/Api/Pages.antt =====
-- The pages of the list of cases.
use razor_flow.Domain.Enums.{case_status_eq}
