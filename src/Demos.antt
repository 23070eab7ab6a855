-- ===== src/Demos.antt =====
-- The demonstrations of the program in examples, as far as they do more than wire the components
-- together: examples/dashboard/main.go and examples/autoscaling/main.go.
pub mod LiveDashboard
pub mod Autoscaling
