-- ===== src/Feed/Ticks.antt =====
-- The loop of `tickToPrice`, and the mean tick of `readTWAP`, of
-- pkg/positionmanager/pricefeed_uniswapv3.go.
