-- ===== src/Symtable.antt =====
-- src/symtable.rs: the table of the settings, row by row.
mod Row
mod Rows1
mod Rows2
mod Rows3
mod Rows4
mod Rows5
mod Rows6
mod Rows7
mod Rows8
mod Rows9
mod Rows10
mod Rows11
pub mod Every
pub mod Order
pub mod Codecs
pub mod Numbers
pub mod Printed
pub mod Generic
use docsis_config_generator.Common.{List, ◌++◌}
use docsis_config_generator.Symbol.{Symbol}
use docsis_config_generator.Symtable.Rows1.{rows1}
use docsis_config_generator.Symtable.Rows2.{rows2}
use docsis_config_generator.Symtable.Rows3.{rows3}
use docsis_config_generator.Symtable.Rows4.{rows4}
use docsis_config_generator.Symtable.Rows5.{rows5}
use docsis_config_generator.Symtable.Rows6.{rows6}
use docsis_config_generator.Symtable.Rows7.{rows7}
use docsis_config_generator.Symtable.Rows8.{rows8}
use docsis_config_generator.Symtable.Rows9.{rows9}
use docsis_config_generator.Symtable.Rows10.{rows10}
use docsis_config_generator.Symtable.Rows11.{rows11}

unfoldable pub symtable : List Symbol
symtable =
    rows1 ++ rows2 ++ rows3 ++ rows4 ++ rows5 ++ rows6 ++ rows7 ++ rows8 ++ rows9 ++ rows10
    ++ rows11
