-- ===== src/Odb.antt =====
-- common/src/machine_info-odb.cpp and common/include/machine_info-odb.ixx: the code that the ODB
-- compiler made for the class `machineinfo`.
pub mod Traits
pub mod Image
pub mod Binding
pub mod QueryColumns
pub mod Statements
pub mod Prepare
pub mod Object
pub mod Table
