-- ===== src/Async/RoundTrip/All.antt =====
-- Every handler makes the call that was broadcast, and reads what was broadcast for it.
