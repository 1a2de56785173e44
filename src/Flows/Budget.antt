-- ===== src/Flows/Budget.antt =====
-- flows/budget.py: consumption and the decisions on budgets.
pub mod Policy
pub mod Limits
