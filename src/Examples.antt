-- ===== src/Examples.antt =====
-- Each theorem that has hypotheses at an input where they hold.
mod Codecs
mod Samples
mod Queues
mod Workers
mod Scaling
mod Monitoring
mod Pools
mod Stores
mod Histories
mod Logs
mod Instruments
mod Brokers
mod Dashboards
mod Draining
mod Streams
mod Images
