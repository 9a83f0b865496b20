-- ===== src/Domain/Execution.antt =====
-- The order enums of src/trading/domain/execution/types.py.
pub data OrderSide : Type 0 where
  buy sell buy_to_open buy_to_close sell_to_open sell_to_close : OrderSide

pub data OrderType : Type 0 where
  market limit stop stop_limit : OrderType
