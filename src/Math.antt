-- ===== src/Math.antt =====
-- The host kernels of src/math, over any representation of `float`.
pub mod Float
pub mod Arrays
pub mod Elementwise
pub mod Reduction
pub mod Softmax
pub mod Normalization
pub mod Samples
